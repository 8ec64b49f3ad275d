-- ===== src/Webhook/Tests.antt =====
-- The theorems on webhook deliveries at one failing subscriber.
use boject_cms.Common.{
  ℕ, ◌≤◌, ◌<◌, ◌≡◌, refl, ◌↔◌, String, ◌==◌, Bool, true, false, not, List, [], ◌∷◌, none, some, all,
  filter, arith,
}
use boject_cms.Entry.Transition.{entry_published}
use boject_cms.Webhook.Backoff.{backoff_ms}
use boject_cms.Webhook.Worker.{
  Delivery, Environment, Subscriber, pending, success, no_response, resolved, dispatch,
  run_worker_tick, slice_to,
}
use boject_cms.Webhook.WorkerLaws.{backoff_ms_lem, is_pending, is_sound, IsOutcome, dispatch_lem}
use boject_cms.Webhook.WorkerRuns.{run_attempts, run_attempts_lem}
use boject_cms.Webhook.Tick.{find_row, Selects, run_worker_tick_lem}

abbrev subscriber : Subscriber
subscriber = record {
  id = "w1";
  name = "hook";
  is_internal = false;
  url = some "https://example.org";
  secret = some "s";
}

-- A network in which no request gets an answer.
abbrev down : ℕ → Environment String
down t = record {
  now = t;
  allow_private = false;
  find_webhook = λ i. some subscriber;
  resolve = λ url. resolved none;
  fetch = λ url request. no_response "unreachable";
  sign_payload = λ secret seconds body. "00";
  stringify = λ payload. payload;
  decimal = λ n. "0";
  event_name = λ e. "ENTRY_PUBLISHED";
  internal_handlers = λ name. none;
}

abbrev fresh : Delivery String
fresh = record {
  id = "d1";
  webhook_id = "w1";
  event = entry_published;
  payload = "{}";
  attempts = 0;
  status = pending;
  last_request_headers = none;
  last_response_code = none;
  last_response_body = none;
  last_error = none;
  completed_at = none;
  next_attempt_at = some 5;
}

abbrev delivered : Delivery String
delivered = record fresh { id = "d0"; attempts = 1; status = success; completed_at = some 3 }

backoff_ms_lem_example :
    (((x : ℕ) × (backoff_ms 2 ≡ some x)) ↔ ((1 ≤ 2) × (2 ≤ 6)))
    × ((x y : ℕ) → backoff_ms 2 ≡ some x → backoff_ms 3 ≡ some y → 2 < 3 → x < y)
backoff_ms_lem_example = backoff_ms_lem 2 3

-- The row after the first failed attempt.
abbrev retried : Delivery String
retried = record fresh {
  attempts = 1;
  last_request_headers = some (
      ("Content-Type", "application/json")
      ∷ ("User-Agent", "boject-cms")
      ∷ ("X-Boject-Event", "ENTRY_PUBLISHED")
      ∷ ("X-Boject-Delivery-Id", "d1")
      ∷ ("X-Boject-Timestamp", "0")
      ∷ ("X-Boject-Signature", "sha256=00")
      ∷ []);
  last_error = some "unreachable";
  next_attempt_at = some 1010;
}

dispatch_lem_example : IsOutcome (down 10) fresh retried
unfolding dispatch backoff_ms slice_to
dispatch_lem_example = dispatch_lem (down 10) fresh retried refl refl refl

run_attempts_lem_example :
    (is_pending (run_attempts (down 1 ∷ down 2 ∷ down 3 ∷ down 4 ∷ down 5 ∷ down 6 ∷ []) fresh)
      ≡ false)
    × (is_sound (run_attempts (down 1 ∷ down 2 ∷ down 3 ∷ down 4 ∷ down 5 ∷ down 6 ∷ []) fresh)
        ≡ true)
run_attempts_lem_example =
    run_attempts_lem (down 1 ∷ down 2 ∷ down 3 ∷ down 4 ∷ down 5 ∷ down 6 ∷ []) fresh
      ((λ u. refl), ((λ u. refl), ((λ u. refl), ((λ u. refl), ((λ u. refl), ((λ u. refl), tt))))))
      refl (omega arith)

all-filter :
    (p q : Delivery String → Bool) (ds : List (Delivery String))
    → all p ds ≡ true
    → all p (filter q ds) ≡ true
all-filter p q [] h = refl
all-filter p q (d ∷ ds) h = ground (arith, all-filter p q ds)

filter-all : (p : Delivery String → Bool) (ds : List (Delivery String)) → all p (filter p ds) ≡ true
filter-all p [] = refl
filter-all p (d ∷ ds) = ground (arith, filter-all p ds)

filter-Selects : Selects {P = String} (filter is_pending)
filter-Selects = record {
  from_table = λ p table h. all-filter p is_pending table h;
  only_pending = λ table. filter-all is_pending table;
}

run_worker_tick_lem_example :
    (all is_sound (run_worker_tick (down 10) (filter is_pending) (delivered ∷ fresh ∷ [])) ≡ true)
    × ((i : String)
        → all (λ r. not (r.id == i)) (fresh ∷ []) ≡ true
        → find_row i (run_worker_tick (down 10) (filter is_pending) (delivered ∷ fresh ∷ []))
          ≡ find_row i (delivered ∷ fresh ∷ []))
run_worker_tick_lem_example =
    run_worker_tick_lem (down 10) (filter is_pending) (delivered ∷ fresh ∷ []) filter-Selects refl
