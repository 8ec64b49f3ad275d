-- ===== src/Entry/Handlers.antt =====
-- The transactions on an entry: `applyTransitionMutations`, and the handlers of unpublish, archive,
-- unarchive, republish and draft removal (apps/cms/server/api/entries/[id]). The guards of scope,
-- rate limit and uuid stand before what is modelled. A transaction that throws leaves the state as
-- it was.
use boject_cms.Common.{ℕ, String, Bool, true, false, List, [], ◌∷◌, Option, none, some, ◌>>=◌}
use boject_cms.Entry.Version.{
  archived, ContentEntry, ContentEntryVersion, find_status, get_draft_version,
  get_published_version,
}
use boject_cms.Entry.Transition.{
  TransitionAction, unpublish, archive, unarchive, republish, VersionMutation, update_status,
  delete, WebhookEvent, WebhookEntrySnapshot, TransitionError, ok, error, plan_transition,
}
use boject_cms.Entry.Database.{ContentTypeRef, Database}
use boject_cms.Webhook.Enqueue.{enqueue_webhook_deliveries, enqueue_entry_draft_sync}

-- What `createError` throws: a status code, and the plan's error where the body carries one.
pub record HttpError : Type 0 where
  pub status_code : ℕ
  pub status_message : String
  pub error_of : Option TransitionError

-- The extras that a handler adds to `flattenEntryWithVersion`.
pub record Extras : Type 0 where
  pub has_published_version : Bool
  pub published_version_published_at : Option ℕ

-- `flattenEntryWithVersion`: an entry with one of its versions.
pub record FlatEntry (D : Type 0) : Type 0 where
  pub entry : ContentEntry
  pub version : ContentEntryVersion D
  pub extras : Option Extras

-- A handler's answer, with the state that it leaves: a result, an error of its own, or the error
-- of a failed write.
pub data Reply (S R : Type 0) : Type 0 where
  done : S → R → Reply S R
  thrown : S → HttpError → Reply S R
  crashed : S → Reply S R

abbrev pub http_error : ℕ → String → HttpError
http_error code message = record { status_code = code; status_message = message; error_of = none }

module _ {D : Type 0} (db : Database D) where
  apply_one : VersionMutation → db.State → Option (db.State)
  apply_one (delete i) s = db.delete_version i s
  apply_one (update_status i st at) s =
      db.update_version i (record { status = st; published_at = at; content = none }) s

  unfoldable pub apply_transition_mutations : List VersionMutation → db.State → Option (db.State)
  unfolding apply_one
  apply_transition_mutations [] s = some s
  apply_transition_mutations (m ∷ ms) s = do s' ← apply_one m s; apply_transition_mutations ms s'

  -- `if (plan.webhookEvent && plan.snapshot)`.
  announce :
      ContentTypeRef
      → Option WebhookEvent
      → Option (WebhookEntrySnapshot D)
      → ℕ
      → db.State
      → Option (db.State)
  announce content_type (some event) (some snapshot) now s =
      enqueue_webhook_deliveries db event content_type snapshot now s
  announce content_type (some event) none now s = some s
  announce content_type none snapshot now s = some s

  -- The transaction of the handlers: unarchive enqueues the draft sync, the others their event.
  unfoldable pub run_plan :
      TransitionAction
      → ContentEntry
      → ContentTypeRef
      → List VersionMutation
      → Option WebhookEvent
      → Option (WebhookEntrySnapshot D)
      → ℕ
      → db.State
      → Option (db.State)
  unfolding announce
  run_plan unarchive entry content_type mutations event snapshot now s = do
    s' ← apply_transition_mutations mutations s
    enqueue_entry_draft_sync db content_type.id entry.id now s'
  run_plan _ entry content_type mutations event snapshot now s = do
    s' ← apply_transition_mutations mutations s
    announce content_type event snapshot now s'

  -- The version that a handler answers with after its refetch.
  abbrev pub shown :
      TransitionAction → List (ContentEntryVersion D) → Option (ContentEntryVersion D)
  shown unpublish vs = get_draft_version vs
  shown archive vs = find_status archived vs
  shown unarchive vs = get_draft_version vs
  shown republish vs = get_published_version vs

  abbrev pub missing_message : TransitionAction → String
  missing_message unpublish = "Unpublish left entry with no draft"
  missing_message archive = "Archive left entry without an ARCHIVED version"
  missing_message unarchive = "Unarchive left entry with no draft"
  missing_message republish = "Republish left entry without a PUBLISHED version"

  abbrev pub extras_of : TransitionAction → ContentEntryVersion D → Extras
  extras_of republish v = record {
    has_published_version = true;
    published_version_published_at = v.published_at;
  }
  extras_of _ v = record { has_published_version = false; published_version_published_at = none }

  answer :
      TransitionAction
      → ContentEntry
      → db.State
      → Option (ContentEntryVersion D)
      → Reply (db.State) (FlatEntry D)
  answer action entry s none = thrown s (http_error 500 (missing_message action))
  answer action entry s (some v) =
      done s (record { entry = entry; version = v; extras = some (extras_of action v) })

  -- The four handlers, from the loaded entry on.
  unfoldable pub transition_handler :
      TransitionAction
      → Option (ContentEntry)
      → ContentTypeRef
      → ℕ
      → db.State
      → Reply (db.State) (FlatEntry D)
  unfolding answer
  transition_handler action none content_type now s =
      thrown s (http_error 404 "Content entry not found")
  transition_handler action (some entry) content_type now s =
      elim (plan_transition entry (db.versions s) action) [
        | error e message ↦
            thrown s (record { status_code = 409; status_message = message; error_of = some e })
        | ok mutations event snapshot ↦
            elim (run_plan action entry content_type mutations event snapshot now s) [
              | none ↦ crashed s
              | some s' ↦ answer action entry s' (shown action (db.versions s'))
            ]
      ]

  -- `draft.delete.ts`: throws the working copy away, the published version staying.
  unfoldable pub discard_draft :
      Option (ContentEntry) → ℕ → db.State → Reply (db.State) (FlatEntry D)
  discard_draft none now s = thrown s (http_error 404 "Content entry not found")
  discard_draft (some entry) now s = elim (get_draft_version (db.versions s)) [
    | none ↦ thrown s (http_error 404 "No draft version to discard")
    | some d ↦ elim (get_published_version (db.versions s)) [
      | none ↦
          thrown s (http_error 400 "Cannot discard the only version — delete the entry instead")
      | some p ↦
          elim (do
            s' ← db.delete_version d.id s
            enqueue_entry_draft_sync db entry.content_type_id entry.id now s') [
              | none ↦ crashed s
              | some s' ↦ done s' (record { entry = entry; version = p; extras = none })
            ]
    ]
  ]
