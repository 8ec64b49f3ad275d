-- ===== src/RateLimit/Store.antt =====
-- apps/cms/server/utils/rateLimit.ts. `Date.now()` is an argument in milliseconds; `now - t < w` is
-- written `now < t + w`. A number that the source computes from a timestamp that is not there is
-- `none` (NaN).
use mathlib.Core.Option
use boject_cms.Common.{
  ℕ, ◌+◌, ◌-◌, ◌/◌, max, String, ◌==◌, Bool, true, false, not, List, [], ◌∷◌, ◌++◌, Option, none,
  some, length, filter, ltb, leb, if◌then◌else◌,
}

abbrev pub Store : Type 0
Store = List (String × List ℕ)

abbrev pub default_window_ms : ℕ
default_window_ms = 60000

abbrev pub default_max_requests : ℕ
default_max_requests = 100

-- The timestamps of a key, none for a key that is missing.
unfoldable pub lookup : String → Store → List ℕ
lookup key [] = []
lookup key ((k, ts) ∷ rest) = if k == key then ts else lookup key rest

-- The store with a key's timestamps written, in place or behind the others.
unfoldable pub put : String → List ℕ → Store → Store
put key ts [] = (key, ts) ∷ []
put key ts ((k, us) ∷ rest) =
    let later = put key ts rest in if k == key then (k, ts) ∷ rest else (k, us) ∷ later

-- The timestamps that the window still holds.
abbrev pub recent : ℕ → ℕ → List ℕ → List ℕ
recent now window_ms = filter (λ t. ltb now (t + window_ms))

pub record RateLimitSnapshot : Type 0 where
  pub allowed : Bool
  pub limit : ℕ
  pub remaining : ℕ
  pub reset_seconds : Option ℕ
  pub retry_after_ms : Option ℕ

abbrev pub oldest : List ℕ → Option ℕ
oldest [] = none
oldest (t ∷ _) = some t

-- `Math.max(1, Math.ceil(ms / 1000))`.
abbrev pub whole_seconds : ℕ → ℕ
whole_seconds ms = max 1 ((ms + 999) / 1000)

-- `oldest + windowMs - now`.
abbrev pub left_ms : ℕ → ℕ → List ℕ → Option ℕ
left_ms now window_ms ts = Option.map (λ t. t + window_ms - now) (oldest ts)

abbrev pub refusal : ℕ → ℕ → ℕ → List ℕ → RateLimitSnapshot
refusal now max_requests window_ms ts = record {
  allowed = false;
  limit = max_requests;
  remaining = 0;
  reset_seconds = Option.map whole_seconds (left_ms now window_ms ts);
  retry_after_ms = left_ms now window_ms ts;
}

-- The snapshot with the timestamps after the push.
abbrev pub admission : ℕ → ℕ → ℕ → List ℕ → RateLimitSnapshot
admission now max_requests window_ms ts = record {
  allowed = true;
  limit = max_requests;
  remaining = max_requests - length ts;
  reset_seconds = Option.map whole_seconds (left_ms now window_ms ts);
  retry_after_ms = some 0;
}

-- A call with the timestamps that the window holds.
unfoldable pub limited : String → ℕ → ℕ → ℕ → Store → List ℕ → RateLimitSnapshot × Store
limited key max_requests window_ms now store ts =
    if leb max_requests (length ts)
    then (refusal now max_requests window_ms ts, put key ts store)
    else (admission now max_requests window_ms (ts ++ now ∷ []), put key (ts ++ now ∷ []) store)

-- The module's state: the store, and whether the cleanup timer is set.
pub record Limiter : Type 0 where
  pub store : Store
  pub has_timer : Bool

abbrev pub ensure_cleanup : Limiter → Limiter
ensure_cleanup l = record l { has_timer = true }

-- A call and the state that it leaves.
abbrev pub answered : Bool → RateLimitSnapshot × Store → RateLimitSnapshot × Limiter
answered timer (snap, store) = (snap, record { store = store; has_timer = timer })

unfoldable pub rate_limit : String → ℕ → ℕ → ℕ → Limiter → RateLimitSnapshot × Limiter
rate_limit key max_requests window_ms now limiter =
    let l = ensure_cleanup limiter in
    answered l.has_timer
      (limited key max_requests window_ms now l.store (recent now window_ms (lookup key l.store)))

abbrev pub is_empty : List ℕ → Bool
is_empty [] = true
is_empty (_ ∷ _) = false

-- The loop of the sweep, which keeps the same window whatever that of the calls is.
unfoldable pub clean_up : ℕ → Store → Store
clean_up now [] = []
clean_up now ((k, ts) ∷ rest) =
    let swept = clean_up now rest in
    if is_empty (recent now default_window_ms ts)
    then swept
    else (k, recent now default_window_ms ts) ∷ swept

abbrev is_swept : Store → Bool
is_swept [] = true
is_swept (_ ∷ _) = false

-- A run of the cleanup timer, which an empty store ends; without a timer there is none.
unfoldable pub tick : ℕ → Limiter → Limiter
unfolding clean_up
tick now l =
    if l.has_timer
    then record { store = clean_up now l.store; has_timer = not (is_swept (clean_up now l.store)) }
    else l
