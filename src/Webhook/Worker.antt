-- ===== src/Webhook/Worker.antt =====
-- apps/cms/server/utils/webhookWorker.ts: the dispatch of a delivery. The network, the signature,
-- the name resolution and the internal handlers are parameters, gathered in an environment. A row
-- is updated in place: it is assumed that nothing else writes the delivery during its dispatch. The
-- code does not ensure that: apps/cms/server/api/webhooks may cancel a delivery meanwhile, and a tick
-- of the timer may start before the one before it has ended.
mod Types
unfoldable pub use Types.*
use Prim.Native.String
use boject_cms.Common.{
  ℕ, zero, suc, ◌+◌, ◌/◌, String, ◌==◌, Bool, true, false, ◌&&◌, ◌||◌, not, List, [], ◌∷◌, Option,
  none, some, ltb, leb, if◌then◌else◌, truthy,
}
use boject_cms.Entry.Transition.{WebhookEvent}
use boject_cms.Webhook.Backoff.{max_attempts, backoff_ms}

module _ {P : Type 0} (env : Environment P) where
  -- The updates of `dispatchInternal` after the handler ran.
  unfoldable pub settle_internal : Delivery P → ℕ → Option String → Delivery P
  settle_internal row attempts none = record row {
    status = success;
    attempts = attempts;
    last_error = none;
    completed_at = some env.now;
    next_attempt_at = none;
  }
  settle_internal row attempts (some error) =
      if ltb attempts max_attempts
      then record row {
        status = pending;
        attempts = attempts;
        last_error = some error;
        next_attempt_at = some (retry_at env.now attempts);
      }
      else record row {
        status = dead_lettered;
        attempts = attempts;
        last_error = some error;
        completed_at = some env.now;
        next_attempt_at = none;
      }

  unfoldable pub dispatch_internal : Delivery P → String → ℕ → Delivery P
  unfolding settle_internal
  dispatch_internal row webhook_name attempts = elim (env.internal_handlers webhook_name) [
    | none ↦ record row {
      status = dead_lettered;
      attempts = attempts;
      last_error = some (
          String.◌++◌ "No internal handler registered for webhook \""
            (String.◌++◌ webhook_name "\""));
      completed_at = some env.now;
      next_attempt_at = none;
    }
    | some handler ↦ settle_internal row attempts (handler row.payload)
  ]

  unfoldable pub request_headers : Delivery P → String → List (String × String)
  request_headers row signature =
      ("Content-Type", "application/json")
      ∷ ("User-Agent", "boject-cms")
      ∷ ("X-Boject-Event", env.event_name row.event)
      ∷ ("X-Boject-Delivery-Id", row.id)
      ∷ ("X-Boject-Timestamp", env.decimal (env.now / 1000))
      ∷ ("X-Boject-Signature", String.◌++◌ "sha256=" signature)
      ∷ []

  -- The updates of `dispatch` after the exchange.
  unfoldable pub settle_external : Delivery P → ℕ → List (String × String) → Exchange → Delivery P
  settle_external row attempts headers ex =
      let seen = record row {
        attempts = attempts;
        last_request_headers = some headers;
        last_response_code = response_code ex;
        last_response_body = response_body ex;
      } in
      if succeeded (response_code ex)
      then record seen {
        status = success;
        last_error = none;
        completed_at = some env.now;
        next_attempt_at = none;
      }
      else if not (ltb attempts max_attempts)
      then record seen {
        status = dead_lettered;
        last_error = transport_error ex;
        completed_at = some env.now;
        next_attempt_at = none;
      }
      else record seen {
        status = pending;
        last_error = transport_error ex;
        next_attempt_at = some (retry_at env.now attempts);
      }

  -- The POST to an address that the guard let through.
  unfoldable pub post : Delivery P → ℕ → String → String → Option String → Delivery P
  unfolding settle_external request_headers
  post row attempts url secret pinned =
      let body = env.stringify row.payload in
      let headers = request_headers row (env.sign_payload secret (env.now / 1000) body) in
      settle_external row attempts headers
        (env.fetch url (record { headers = headers; body = body; pinned = pinned }))

  -- The guard against rebinding; `none` where an error leaves the tick.
  unfoldable pub guarded : Delivery P → ℕ → String → String → Resolution → Option (Delivery P)
  unfolding post
  guarded row attempts url secret (resolved pinned) = some (post row attempts url secret pinned)
  guarded row attempts url secret (refused reason) = some (record row {
    status = failed;
    attempts = attempts;
    last_error = some (dispatch_error_message reason);
    last_response_code = none;
    last_response_body = none;
    completed_at = some env.now;
    next_attempt_at = none;
  })
  guarded row attempts url secret threw = none

  unfoldable pub unconfigured : Delivery P → ℕ → Delivery P
  unconfigured row attempts = record row {
    status = dead_lettered;
    attempts = attempts;
    last_error = some "External webhook is missing a URL or secret";
    completed_at = some env.now;
    next_attempt_at = none;
  }

  -- `if (!allowPrivate)`: the guard is skipped where private addresses are allowed.
  unfoldable pub checked : Bool → Delivery P → ℕ → String → String → Option (Delivery P)
  unfolding guarded post
  checked true row attempts url secret = some (post row attempts url secret none)
  checked false row attempts url secret = guarded row attempts url secret (env.resolve url)

  unfoldable pub dispatch_external :
      Delivery P → ℕ → Option String → Option String → Option (Delivery P)
  unfolding checked unconfigured
  dispatch_external row attempts (some url) (some secret) =
      if not (truthy (some url)) || not (truthy (some secret))
      then some (unconfigured row attempts)
      else checked env.allow_private row attempts url secret
  dispatch_external row attempts _ _ = some (unconfigured row attempts)

  -- The row that `dispatch` leaves, or `none` where it throws and leaves the row as it was.
  unfoldable pub dispatch : Delivery P → Option (Delivery P)
  unfolding dispatch_internal dispatch_external
  dispatch row = elim (env.find_webhook row.webhook_id) [
    | none ↦ some (record row {
      status = failed;
      last_error = some "Webhook no longer exists";
      completed_at = some env.now;
    })
    | some webhook ↦
        if webhook.is_internal
        then some (dispatch_internal row webhook.name (row.attempts + 1))
        else dispatch_external row (row.attempts + 1) webhook.url webhook.secret
  ]

  -- `for (const row of rows) await dispatch(deps, row)`: each update goes to the row of the id, and
  -- a throw ends the tick.
  unfoldable pub write_row : Delivery P → List (Delivery P) → List (Delivery P)
  write_row r [] = []
  write_row r (d ∷ ds) = (if d.id == r.id then r else d) ∷ write_row r ds

  unfoldable pub dispatch_rows : List (Delivery P) → List (Delivery P) → List (Delivery P)
  dispatch_rows [] table = table
  dispatch_rows (row ∷ rows) table = elim (dispatch row) [
    | none ↦ table
    | some r ↦ dispatch_rows rows (write_row r table)
  ]

  -- `select` is the query for pending rows that are due, in the database.
  unfoldable pub run_worker_tick :
      (List (Delivery P) → List (Delivery P)) → List (Delivery P) → List (Delivery P)
  run_worker_tick select table = dispatch_rows (select table) table
