-- ===== src/Entry/Database.antt =====
-- The database as apps/cms/server/utils sees it through a Prisma transaction client: an interface
-- over the rows of one entry, the webhooks and their deliveries. A write that throws is `none`; the
-- transaction then rolls back. Its laws state what Postgres and Prisma document.
use mathlib.Core.List.{Permᴰ}
use boject_cms.Common.{ℕ, String, ◌≡◌, Bool, true, false, all, List, ◌∷◌, Option, none, some}
use boject_cms.Entry.Version.{ContentStatus, ContentEntryVersion}
use boject_cms.Entry.Transition.{WebhookEvent, WebhookEntrySnapshot}
use boject_cms.Entry.Rows.{VersionPatch, has_row, remove_row, patch_row, index_ok, UniqueIds}

pub record ContentTypeRef : Type 0 where
  pub id : String
  pub identifier : String

-- The bodies that apps/cms/server/utils/webhookPayload.ts builds, by what they hold; dates stay
-- numbers. The event of the last three is fixed.
pub data Payload (D : Type 0) : Type 0 where
  entry_payload : WebhookEvent → String → ℕ → ContentTypeRef → WebhookEntrySnapshot D → Payload D
  schema_changed_payload bulk_sync_payload : String → ContentTypeRef → ℕ → Payload D
  draft_sync_payload : String → String → String → ℕ → Payload D

-- A webhook that is enabled and subscribes to the event of the query.
pub record Webhook : Type 0 where
  pub id : String
  pub content_type_ids : List String

-- A new PENDING delivery; its payload is written by the second step.
pub record NewDelivery : Type 0 where
  pub webhook_id : String
  pub event : WebhookEvent
  pub content_type_id : String
  pub entry_id : Option String
  pub next_attempt_at : ℕ

pub record NewVersion (D : Type 0) : Type 0 where
  pub data_of : D
  pub entry_title : String
  pub status : ContentStatus
  pub published_at : Option ℕ

pub record Database (D : Type 0) : Type 1 where
  pub State : Type 0
  pub versions : State → List (ContentEntryVersion D)
  pub delete_version : String → State → Option State
  pub update_version : String → VersionPatch D → State → Option State
  pub create_version : NewVersion D → State → Option State
  pub update_envelope : Option String → String → State → Option State
  pub find_webhooks : WebhookEvent → State → List Webhook
  pub create_delivery : NewDelivery → State → Option (String × State)
  pub set_payload : String → Payload D → State → Option State

-- The row that a create adds, under the id that the database chose.
abbrev pub row_of : {D : Type 0} → NewVersion D → String → ContentEntryVersion D
row_of v i = record {
  id = i;
  status = v.status;
  data_of = v.data_of;
  entry_title = v.entry_title;
  published_at = v.published_at;
  created_by = none;
  updated_by = none;
}

pub record DatabaseLaws {D : Type 0} (db : Database D) : Type 0 where
  -- The primary key.
  pub unique_ids : (s : db.State) → UniqueIds (db.versions s)
  -- A delete or update of a row that is there, checked against the index statement by statement.
  pub delete_lem :
      (i : String) (s : db.State)
      → has_row i (db.versions s) ≡ true
      → (s' : db.State) × (db.delete_version i s ≡ some s')
        × Permᴰ (db.versions s') (remove_row i (db.versions s))
  pub update_lem :
      (i : String) (p : VersionPatch D) (s : db.State)
      → has_row i (db.versions s) ≡ true
      → index_ok (patch_row i p (db.versions s)) ≡ true
      → (s' : db.State) × (db.update_version i p s ≡ some s')
        × Permᴰ (db.versions s') (patch_row i p (db.versions s))
  pub update_missing :
      (i : String) (p : VersionPatch D) (s : db.State)
      → has_row i (db.versions s) ≡ false
      → db.update_version i p s ≡ none
  pub update_conflict :
      (i : String) (p : VersionPatch D) (s : db.State)
      → index_ok (patch_row i p (db.versions s)) ≡ false
      → db.update_version i p s ≡ none
  pub create_lem :
      (v : NewVersion D) (s : db.State)
      → ((i : String) → index_ok (row_of v i ∷ db.versions s) ≡ true)
      → (i : String) × (s' : db.State) × (db.create_version v s ≡ some s')
        × Permᴰ (db.versions s') (row_of v i ∷ db.versions s)
  pub create_conflict :
      (v : NewVersion D) (s : db.State)
      → ((i : String) → index_ok (row_of v i ∷ db.versions s) ≡ false)
      → db.create_version v s ≡ none
  -- The other tables hold no version.
  pub envelope_lem :
      (slug : Option String) (title : String) (s s' : db.State)
      → db.update_envelope slug title s ≡ some s'
      → Permᴰ (db.versions s') (db.versions s)
  -- The webhooks that are there, among them those that a query finds; a delivery refers to one of
  -- them, and writing it or its payload removes none.
  pub has_webhook : String → db.State → Bool
  pub find_webhooks_lem :
      (event : WebhookEvent) (s : db.State)
      → all (λ w. has_webhook w.id s) (db.find_webhooks event s) ≡ true
  pub create_delivery_lem :
      (d : NewDelivery) (s : db.State)
      → has_webhook d.webhook_id s ≡ true
      → (i : String) × (s' : db.State) × (db.create_delivery d s ≡ some (i, s'))
        × Permᴰ (db.versions s') (db.versions s)
        × ((w : String) → has_webhook w s ≡ true → has_webhook w s' ≡ true)
        × ((p : Payload D)
            → (t : db.State) × (db.set_payload i p s' ≡ some t)
              × Permᴰ (db.versions t) (db.versions s')
              × ((w : String) → has_webhook w s' ≡ true → has_webhook w t ≡ true))
