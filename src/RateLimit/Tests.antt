-- ===== src/RateLimit/Tests.antt =====
-- The theorems on the rate limiter at short runs of requests.
use boject_cms.Common.{
  ℕ, ◌+◌, ◌≤◌, ◌<◌, ◌≡◌, refl, true, false, List, [], ◌∷◌, some, length, ltb, arith,
}
use boject_cms.RateLimit.Store.{lookup, put, recent, Limiter, rate_limit, limited, clean_up, tick}
use boject_cms.RateLimit.Window.{Event, call, timer, replay, rate_limit-replay}
use boject_cms.RateLimit.Retry.{rate_limit-retry}

abbrev idle : Limiter
idle = record { store = []; has_timer = false }

abbrev events : List Event
events =
    call "a" 10
    ∷ call "b" 11
    ∷ call "a" 12
    ∷ timer 12
    ∷ call "a" 13
    ∷ call "a" 111
    ∷ timer 60100
    ∷ call "a" 60101
    ∷ []

rate_limit-replay_example :
    (length (recent 60102 100 ((replay "a" 2 100 events idle []).1)) ≤ 2)
    × ((rate_limit "a" 2 100 60102 ((replay "a" 2 100 events idle []).0)).0.allowed
        ≡ ltb (length (recent 60102 100 ((replay "a" 2 100 events idle []).1))) 2)
rate_limit-replay_example =
    rate_limit-replay "a" 2 100 events false 60102
      (
        omega arith,
        (
          omega arith,
          (
            omega arith,
            (omega arith, (omega arith, (omega arith, (omega arith, (omega arith, tt))))),
          ),
        ),
      )
      (omega arith) (omega arith)

-- The third and later requests within the window are refused.
events_log : (replay "a" 2 100 events idle []).1 ≡ 10 ∷ 12 ∷ 111 ∷ 60101 ∷ []
unfolding replay rate_limit limited lookup put clean_up tick
events_log = refl

-- With a window that is longer than that of the sweep, two calls are allowed under a limit of one.
long_window :
    recent 300001 600000
      ((replay "a" 1 600000 (call "a" 0 ∷ timer 300000 ∷ call "a" 300001 ∷ []) idle []).1)
    ≡ 0 ∷ 300001 ∷ []
unfolding replay rate_limit limited lookup put clean_up tick
long_window = refl

abbrev busy : Limiter
busy = record { store = ("a", 10 ∷ 12 ∷ []) ∷ []; has_timer = true }

rate_limit-retry_example :
    (wait : ℕ) × ((rate_limit "a" 2 100 13 busy).0.retry_after_ms ≡ some wait)
    × (0 < wait)
    × ((rate_limit "a" 2 100 (13 + wait) ((rate_limit "a" 2 100 13 busy).1)).0.allowed ≡ true)
unfolding lookup rate_limit limited
rate_limit-retry_example = rate_limit-retry "a" 2 100 13 busy (omega arith) (omega arith) refl
