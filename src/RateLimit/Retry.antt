-- ===== src/RateLimit/Retry.antt =====
-- A refused caller that waits as long as it is told is let in.
use boject_cms.Common.{
  ℕ, ◌+◌, ◌-◌, ◌≤◌, ◌<◌, ◌≡◌, refl, String, true, false, List, [], ◌∷◌, some, length, all, ltb, leb,
  arith,
}
use boject_cms.RateLimit.Store.{lookup, recent, left_ms, Limiter, limited, rate_limit}
use boject_cms.RateLimit.Sweep.{lookup-put}

all-recent : (now w : ℕ) (ts : List ℕ) → all (λ t. ltb now (t + w)) (recent now w ts) ≡ true
all-recent now w [] = refl
all-recent now w (t ∷ ts) = ground (arith, all-recent now w ts)

length-recent_le : (now w : ℕ) (ts : List ℕ) → length (recent now w ts) ≤ length ts
length-recent_le now w [] = omega arith
length-recent_le now w (t ∷ ts) = ground (arith, length-recent_le now w ts)

-- The wait of a full window, and that one request has left it by then.
wait_lem :
    (max_requests window_ms now : ℕ) (ts : List ℕ)
    → 1 ≤ max_requests
    → leb max_requests (length ts) ≡ true
    → length ts ≤ max_requests
    → all (λ t. ltb now (t + window_ms)) ts ≡ true
    → (wait : ℕ) × (left_ms now window_ms ts ≡ some wait)
      × (0 < wait)
      × (leb max_requests (length (recent (now + wait) window_ms ts)) ≡ false)
wait_lem max_requests w now [] one full fits held = ground arith
wait_lem max_requests w now (t ∷ ts) one full fits held =
    let inside : now < t + w = ground arith in
    let rest = length-recent_le (now + (t + w - now)) w ts in
    (t + w - now, refl, omega arith, ground arith)

-- A call that is refused under a limit of at least one, where the key has no more timestamps than
-- the limit, names a positive wait; the same call after that wait, with no call between, is allowed.
pub rate_limit-retry :
    (key : String) (max_requests window_ms now : ℕ) (l : Limiter)
    → 1 ≤ max_requests
    → length (lookup key l.store) ≤ max_requests
    → (rate_limit key max_requests window_ms now l).0.allowed ≡ false
    → (wait : ℕ) × ((rate_limit key max_requests window_ms now l).0.retry_after_ms ≡ some wait)
      × (0 < wait)
      × ((rate_limit key max_requests window_ms
            (now + wait)
            ((rate_limit key max_requests window_ms now l).1)).0.allowed
          ≡ true)
unfolding rate_limit limited
rate_limit-retry key max_requests window_ms now l one fits refused =
    let ts = recent now window_ms (lookup key l.store) in
    let full : leb max_requests (length ts) ≡ true = ground arith in
    let shorter = length-recent_le now window_ms (lookup key l.store) in
    let (wait, told, positive, free) =
      wait_lem max_requests window_ms now ts one full (omega arith)
        (all-recent now window_ms (lookup key l.store)) in
    (wait, rw full told, positive, rw full (rw (lookup-put key ts l.store) (rw free refl)))
