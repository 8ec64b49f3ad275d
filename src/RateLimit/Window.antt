-- ===== src/RateLimit/Window.antt =====
-- apps/cms/server/utils/rateLimit.ts: calls and runs of the cleanup timer, one after another.
use mathlib.Core.Path.{subst}
use boject_cms.Common.{
  ℕ, ◌≤◌, ◌<◌, ◌≡◌, refl, sym, ap, ◌∙◌, inl, inr, String, ◌==◌, eq_iff, eq_refl, Bool, false, ◌&&◌,
  List, [], ◌∷◌, ◌++◌, length, length-append, leb, ltb, true, arith, Bool-cases, if◌then◌else◌,
}
use boject_cms.RateLimit.Store.{
  Store, default_window_ms, lookup, recent, RateLimitSnapshot, Limiter, limited, rate_limit, tick,
}
use boject_cms.RateLimit.Sweep.{
  AreKeyed, AreKeyed-put, AreKeyed-clean_up, lookup-clean_up, lookup-put, lookup-put_other,
  recent-recent,
}

-- What happens to the limiter: a call with a key, or a run of the timer.
pub data Event : Type 0 where
  call : String → ℕ → Event
  timer : ℕ → Event

abbrev pub time_of : Event → ℕ
time_of (call _ now) = now
time_of (timer now) = now

length-recent : (n m w : ℕ) (ts : List ℕ) → n ≤ m → length (recent m w ts) ≤ length (recent n w ts)
length-recent n m w [] h = omega arith
length-recent n m w (t ∷ ts) h = ground (arith, length-recent n m w ts)

recent-append : (m w : ℕ) (ts us : List ℕ) → recent m w (ts ++ us) ≡ recent m w ts ++ recent m w us
recent-append m w [] us = refl
recent-append m w (t ∷ ts) us = ground (arith, recent-append m w ts us)

length-recent_single : (m w t : ℕ) → length (recent m w (t ∷ [])) ≤ 1
length-recent_single m w t = ground arith

leb-lt : (a b : ℕ) → leb a b ≡ false → b < a
leb-lt a b h = ground arith

module _ (key : String) (max_requests window_ms : ℕ) where
  -- The times of the allowed requests of the key, in order, after a request.
  abbrev pub logged : String → ℕ → RateLimitSnapshot → List ℕ → List ℕ
  logged k now snap log = if (k == key) && snap.allowed then log ++ now ∷ [] else log

  -- The limiter and the log after an event.
  abbrev pub step : Event → Limiter → List ℕ → Limiter × List ℕ
  step (call k now) l log =
      let (snap, after) = rate_limit k max_requests window_ms now l in
      (after, logged k now snap log)
  step (timer now) l log = (tick now l, log)

  -- Events one after another, with the log of the key.
  unfoldable pub replay : List Event → Limiter → List ℕ → Limiter × List ℕ
  replay [] l log = (l, log)
  replay (e ∷ es) l log = let (after, later) = step e l log in replay es after later

  abbrev pub Ascending : ℕ → List Event → Type 0
  Ascending start [] = Unit
  Ascending start (e ∷ es) = (start ≤ time_of e) × Ascending (time_of e) es

  record Holds (start : ℕ) (store : Store) (log : List ℕ) : Type 0 where
    keyed : AreKeyed store
    same : (m : ℕ) → start ≤ m → recent m window_ms (lookup key store) ≡ recent m window_ms log
    bounded : (m : ℕ) → start ≤ m → length (recent m window_ms log) ≤ max_requests

  After : ℕ → String → Limiter → List ℕ → Type 0
  After now k l log =
      Holds now ((rate_limit k max_requests window_ms now l).1.store)
        (logged k now ((rate_limit k max_requests window_ms now l).0) log)

  -- A request of another key.
  other-After :
      (start now : ℕ) (k : String) (l : Limiter) (log : List ℕ)
      → start ≤ now
      → (k == key) ≡ false
      → Holds start l.store log
      → After now k l log
  unfolding After rate_limit limited
  other-After start now k l log le other h =
      let ts = recent now window_ms (lookup k l.store) in
      elim (Bool-cases (leb max_requests (length ts))) [
        | inl full ↦
            rw (other, full)
              (record {
                keyed = AreKeyed-put k ts l.store h.keyed;
                same = λ m q. rw (lookup-put_other key k ts l.store other) (h.same m (omega arith));
                bounded = λ m q. h.bounded m (omega arith);
              })
        | inr room ↦
            rw (other, room)
              (record {
                keyed = AreKeyed-put k (ts ++ now ∷ []) l.store h.keyed;
                same = λ m q.
                    rw (lookup-put_other key k (ts ++ now ∷ []) l.store other)
                      (h.same m (omega arith));
                bounded = λ m q. h.bounded m (omega arith);
              })
      ]

  -- A request of the key.
  own-After :
      (start now : ℕ) (l : Limiter) (log : List ℕ)
      → start ≤ now
      → Holds start l.store log
      → After now key l log
  unfolding After rate_limit limited
  own-After start now l log le h =
      let ts = recent now window_ms (lookup key l.store) in
      let kept : (m : ℕ) → now ≤ m → recent m window_ms ts ≡ recent m window_ms log = λ m q.
        recent-recent now m window_ms window_ms (lookup key l.store) q (omega arith)
        ∙ h.same m (omega arith) in
      elim (Bool-cases (leb max_requests (length ts))) [
        | inl full ↦
            rw (full, eq_refl key)
              (record {
                keyed = AreKeyed-put key ts l.store h.keyed;
                same = λ m q. rw (lookup-put key ts l.store) (kept m q);
                bounded = λ m q. h.bounded m (omega arith);
              })
        | inr room ↦
            rw (room, eq_refl key)
              (record {
                keyed = AreKeyed-put key (ts ++ now ∷ []) l.store h.keyed;
                same = λ m q. rw (lookup-put key (ts ++ now ∷ []) l.store) (
                    rw
                      (
                        recent-append m window_ms ts (now ∷ []),
                        recent-append m window_ms log (now ∷ []),
                      )
                      (ap (λ us. us ++ recent m window_ms (now ∷ [])) (kept m q)));
                bounded = λ m q. rw (recent-append m window_ms log (now ∷ [])) (
                    omega (
                      arith,
                      length-append (recent m window_ms log) (recent m window_ms (now ∷ [])),
                      length-recent_single m window_ms now,
                      length-recent now m window_ms log q,
                      ap length (h.same now le),
                      leb-lt max_requests (length ts) room,
                    ));
              })
      ]

  -- A run of the timer.
  tick-Holds :
      (start now : ℕ) (l : Limiter) (log : List ℕ)
      → start ≤ now
      → window_ms ≤ default_window_ms
      → Holds start l.store log
      → Holds now (tick now l).store log
  unfolding tick
  tick-Holds start now l log le short h = elim (Bool-cases l.has_timer) [
    | inl set ↦ rw set (record {
      keyed = AreKeyed-clean_up now l.store h.keyed;
      same = λ m q. rw (lookup-clean_up key now l.store h.keyed) (
          recent-recent now m default_window_ms window_ms (lookup key l.store) q short
          ∙ h.same m (omega arith));
      bounded = λ m q. h.bounded m (omega arith);
    })
    | inr unset ↦ rw unset (record {
      keyed = h.keyed;
      same = λ m q. h.same m (omega arith);
      bounded = λ m q. h.bounded m (omega arith);
    })
  ]

  -- The time of the last event.
  abbrev pub last_time : ℕ → List Event → ℕ
  last_time start [] = start
  last_time start (e ∷ es) = last_time (time_of e) es

  step-Holds :
      (e : Event) (start : ℕ) (l : Limiter) (log : List ℕ)
      → start ≤ time_of e
      → window_ms ≤ default_window_ms
      → Holds start l.store log
      → Holds (time_of e) ((step e l log).0.store) ((step e l log).1)
  unfolding After
  step-Holds (timer now) start l log le short h = tick-Holds start now l log le short h
  step-Holds (call k now) start l log le short h = elim (Bool-cases (k == key)) [
    | inl own ↦
        let same = (eq_iff k key).0 own in
        subst (λ c. After now c l log) (sym same) (own-After start now l log le h)
    | inr other ↦ other-After start now k l log le other h
  ]

  replay-Holds :
      (es : List Event) (start : ℕ) (l : Limiter) (log : List ℕ)
      → Ascending start es
      → window_ms ≤ default_window_ms
      → Holds start l.store log
      → Holds (last_time start es) ((replay es l log).0.store) ((replay es l log).1)
  unfolding replay
  replay-Holds [] start l log a short h = h
  replay-Holds (e ∷ es) start l log (le, later) short h =
      replay-Holds es (time_of e) _ _ later short (step-Holds e start l log le short h)

  answer_lem :
      (start m : ℕ) (l : Limiter) (log : List ℕ)
      → start ≤ m
      → Holds start l.store log
      → (rate_limit key max_requests window_ms m l).0.allowed
        ≡ ltb (length (recent m window_ms log)) max_requests
  unfolding rate_limit limited
  answer_lem start m l log le h =
      let held = length (recent m window_ms log) in
      elim (Bool-cases (leb max_requests held)) [
        | inl full ↦
            let none_left : ltb held max_requests ≡ false = ground arith in
            rw (h.same m le, full) (sym none_left)
        | inr room ↦
            let some_left : ltb held max_requests ≡ true = ground arith in
            rw (h.same m le, room) (sym some_left)
      ]

  -- Where the window is no longer than the 60 seconds of the sweep: from an empty store, with or without
  -- a timer, after any calls with any keys and any runs of the timer, at times that never go back, at
  -- most as many calls with the key as the limit says were allowed within any window that ends at the
  -- last of these times or later; and a call with the key then is allowed exactly when fewer were.
  pub rate_limit-replay :
      (es : List Event) (has_timer : Bool) (m : ℕ)
      → Ascending 0 es
      → window_ms ≤ default_window_ms
      → last_time 0 es ≤ m
      → let (after, log) = replay es (record { store = []; has_timer = has_timer }) [] in
        (length (recent m window_ms log) ≤ max_requests)
        × ((rate_limit key max_requests window_ms m after).0.allowed
            ≡ ltb (length (recent m window_ms log)) max_requests)
  unfolding lookup
  rate_limit-replay es has_timer m a short q =
      let idle : Limiter = record { store = []; has_timer = has_timer } in
      let h =
        replay-Holds es 0 idle [] a short
          (record { keyed = tt; same = λ n r. refl; bounded = λ n r. omega arith }) in
      (h.bounded m q, answer_lem (last_time 0 es) m ((replay es idle []).0) _ q h)
