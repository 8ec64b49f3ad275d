-- ===== src/Entry/Writes.antt =====
-- apps/cms/server/utils/publishEntry.ts and upsertEntryDraft.ts: the two ways to write the content
-- of an entry. The validation and the extraction of title and slug (validateEntryData.ts) are the
-- parameters that the section names.
use boject_cms.Common.{ℕ, String, Option, none, some, ◌<|>◌, ◌>>=◌, ◌⊎◌, inl, inr}
use mathlib.Core.Option
use boject_cms.Entry.Version.{
  ContentStatus, draft, published, changed, ContentEntry, ContentEntryVersion, find_status,
  get_draft_version, get_published_version,
}
use boject_cms.Entry.Transition.{entry_published, WebhookEntrySnapshot}
use boject_cms.Entry.Database.{ContentTypeRef, Database}
use boject_cms.Entry.Handlers.{HttpError, Reply, done, thrown, crashed, http_error}
use boject_cms.Webhook.Enqueue.{enqueue_webhook_deliveries, enqueue_entry_draft_sync}

-- What the writes use of validateEntryData.ts; `validate` gives the error that it throws, or the
-- enriched data.
pub record ContentOps (D : Type 0) : Type 0 where
  pub validate : D → HttpError ⊎ D
  pub extract_entry_title : D → String
  pub extract_slug : D → Option String

module _ {D : Type 0} (db : Database D) (ops : ContentOps D) where
  -- `if (publishedVersion) delete`.
  unfoldable pub drop_published : Option (ContentEntryVersion D) → db.State → Option (db.State)
  drop_published none s = some s
  drop_published (some p) s = db.delete_version p.id s

  -- Writes the draft under a status, or a new version where there is none. `at` is the key
  -- `publishedAt`, left out by a draft save.
  unfoldable pub write_version :
      Option (ContentEntryVersion D) → ContentStatus → D → Option ℕ → db.State → Option (db.State)
  write_version (some d) st content at s =
      db.update_version d.id
        (record {
          status = st;
          published_at = Option.map some at;
          content = some (content, ops.extract_entry_title content);
        })
        s
  write_version none st content at s =
      db.create_version
        (record {
          data_of = content;
          entry_title = ops.extract_entry_title content;
          status = st;
          published_at = at;
        })
        s

  -- The published row after the write, as the snapshot of its event.
  unfoldable pub published_snapshot :
      ContentEntry → String → Option String → ContentEntryVersion D → ℕ → WebhookEntrySnapshot D
  published_snapshot entry title slug version now = record {
    id = entry.id;
    entry_title = title;
    slug = slug;
    status = published;
    published_at = version.published_at;
    created_at = entry.created_at;
    updated_at = now;
    data_of = version.data_of;
  }

  -- `publishedVersion?.publishedAt ?? now`.
  abbrev pub first_published : Option (ContentEntryVersion D) → ℕ → ℕ
  first_published none now = now
  first_published (some p) now = elim p.published_at [ none ↦ now | some at ↦ at ]

  -- The rest of the transaction: the envelope, and the event with the published row.
  unfoldable pub announce_published :
      ContentEntry → ContentTypeRef → D → ℕ → db.State → Option (db.State)
  unfolding published_snapshot
  announce_published entry content_type content now s =
      let title = ops.extract_entry_title content in
      let slug = ops.extract_slug content in
      do
        s' ← db.update_envelope slug title s
        row ← find_status published (db.versions s')
        enqueue_webhook_deliveries db entry_published content_type
            (published_snapshot entry title slug row now) now s'

  -- The transaction of `publishEntry`. A draft is written with `validatedData ?? draftVersion.data`,
  -- which is the data to publish.
  unfoldable pub publish_tx : ContentEntry → ContentTypeRef → D → ℕ → db.State → Option (db.State)
  unfolding drop_published
  publish_tx entry content_type content now s =
      let old = get_published_version (db.versions s) in
      do
        s₁ ← drop_published old s
        s₂ ←
            write_version (get_draft_version (db.versions s)) published content
              (some (first_published old now)) s₁
        announce_published entry content_type content now s₂

  abbrev pub data_of? : Option (ContentEntryVersion D) → Option D
  data_of? = Option.map (λ v. v.data_of)

  -- A transaction that throws leaves the state as it was.
  abbrev pub settle : db.State → Option (db.State) → Reply (db.State) (Unit {0})
  settle s none = crashed s
  settle s (some s') = done s' tt

  -- `validatedData` is `none` for null.
  unfoldable pub publish_entry :
      ContentEntry → ContentTypeRef → Option D → ℕ → db.State → Reply (db.State) (Unit {0})
  publish_entry entry content_type validated now s =
      elim (validated
        <|> data_of? (get_draft_version (db.versions s))
        <|> data_of? (get_published_version (db.versions s))) [
          | none ↦ thrown s (http_error 400 "No data provided and no existing version to publish")
          | some content ↦ elim (publish_tx entry content_type content now s) [
            | none ↦ crashed s
            | some s' ↦ done s' tt
          ]
        ]

  -- CHANGED beside a published version, DRAFT otherwise.
  abbrev pub target_status : Option (ContentEntryVersion D) → ContentStatus
  target_status none = draft
  target_status (some _) = changed

  -- The transaction of `upsertEntryDraft`.
  unfoldable pub upsert_tx : ContentEntry → ContentTypeRef → D → ℕ → db.State → Option (db.State)
  upsert_tx entry content_type content now s = do
    s₁ ←
        write_version (get_draft_version (db.versions s))
          (target_status (get_published_version (db.versions s))) content none s
    s₂ ← db.update_envelope (ops.extract_slug content) (ops.extract_entry_title content) s₁
    enqueue_entry_draft_sync db content_type.id entry.id now s₂

  save_content :
      ContentEntry → ContentTypeRef → Option D → ℕ → db.State → Reply (db.State) (Unit {0})
  save_content entry content_type none now s =
      thrown s (http_error 400 "No data provided and no existing draft to update")
  save_content entry content_type (some content) now s =
      elim (upsert_tx entry content_type content now s) [ none ↦ crashed s | some s' ↦ done s' tt ]

  -- `rawData` is `none` for null: the draft's own data is saved again.
  unfoldable pub upsert_entry_draft :
      ContentEntry → ContentTypeRef → Option D → ℕ → db.State → Reply (db.State) (Unit {0})
  unfolding save_content
  upsert_entry_draft entry content_type none now s =
      save_content entry content_type (data_of? (get_draft_version (db.versions s))) now s
  upsert_entry_draft entry content_type (some raw) now s = elim (ops.validate raw) [
    | inl e ↦ thrown s e
    | inr content ↦ save_content entry content_type (some content) now s
  ]
