-- ===== src/Webhook/Enqueue.antt =====
-- apps/cms/server/utils/webhooks.ts: one PENDING delivery for each webhook that an event concerns.
-- The concurrent inserts of `Promise.all` run on one connection, one after another. The count of
-- deliveries that the functions return is left out; `now` is the time at which the transaction runs.
use mathlib.Core.List.{Permᴰ}
use mathlib.Core.List.Permᴰ
use boject_cms.Common.{
  ℕ, String, ◌==◌, ◌≡◌, refl, Bool, true, false, ◌||◌, List, [], ◌∷◌, Option, none, some, any, all,
  arith, filter, ◌>>=◌,
}
use boject_cms.Entry.Transition.{
  WebhookEvent, entry_draft_sync, content_type_schema_changed, content_bulk_sync,
  WebhookEntrySnapshot,
}
use boject_cms.Entry.Database.{
  ContentTypeRef, Payload, entry_payload, schema_changed_payload, bulk_sync_payload,
  draft_sync_payload, Webhook, Database, DatabaseLaws,
}

abbrev is_empty : List String → Bool
is_empty [] = true
is_empty (_ ∷ _) = false

-- `contentTypeIds: []` means all content types.
unfoldable pub concerns : String → Webhook → Bool
concerns content_type_id w =
    is_empty w.content_type_ids || any (λ i. i == content_type_id) w.content_type_ids

module _ {D : Type 0} (db : Database D) where
  -- The body of the `map` callback: a placeholder row, then its payload.
  insert_one :
      WebhookEvent
      → String
      → Option String
      → (String → ℕ → Payload D)
      → ℕ
      → Webhook
      → db.State
      → Option (db.State)
  insert_one event content_type_id entry_id build now webhook s = do
    (placeholder, s') ←
        db.create_delivery
          (record {
            webhook_id = webhook.id;
            event = event;
            content_type_id = content_type_id;
            entry_id = entry_id;
            next_attempt_at = now;
          })
          s
    db.set_payload placeholder (build placeholder now) s'

  insert_each :
      WebhookEvent
      → String
      → Option String
      → (String → ℕ → Payload D)
      → ℕ
      → List Webhook
      → db.State
      → Option (db.State)
  insert_each event content_type_id entry_id build now [] s = some s
  insert_each event content_type_id entry_id build now (w ∷ ws) s = do
    s' ← insert_one event content_type_id entry_id build now w s
    insert_each event content_type_id entry_id build now ws s'

  unfoldable pub insert_deliveries :
      WebhookEvent
      → String
      → Option String
      → (String → ℕ → Payload D)
      → ℕ
      → db.State
      → Option (db.State)
  unfolding insert_each insert_one
  insert_deliveries event content_type_id entry_id build now s =
      insert_each event content_type_id entry_id build now
        (filter (concerns content_type_id) (db.find_webhooks event s)) s

  unfoldable pub enqueue_webhook_deliveries :
      WebhookEvent → ContentTypeRef → WebhookEntrySnapshot D → ℕ → db.State → Option (db.State)
  enqueue_webhook_deliveries event content_type entry now =
      insert_deliveries event content_type.id (some entry.id)
        (λ delivery_id at. entry_payload event delivery_id at content_type entry) now

  unfoldable pub enqueue_entry_draft_sync : String → String → ℕ → db.State → Option (db.State)
  enqueue_entry_draft_sync content_type_id entry_id now =
      insert_deliveries entry_draft_sync content_type_id (some entry_id)
        (λ delivery_id at. draft_sync_payload delivery_id content_type_id entry_id at) now

  -- No entry is involved, so the deliveries carry none.
  unfoldable pub enqueue_content_type_schema_changed :
      ContentTypeRef → ℕ → db.State → Option (db.State)
  enqueue_content_type_schema_changed content_type now =
      insert_deliveries content_type_schema_changed content_type.id none
        (λ delivery_id at. schema_changed_payload delivery_id content_type at) now

  unfoldable pub enqueue_content_bulk_sync : ContentTypeRef → ℕ → db.State → Option (db.State)
  enqueue_content_bulk_sync content_type now =
      insert_deliveries content_bulk_sync content_type.id none
        (λ delivery_id at. bulk_sync_payload delivery_id content_type at) now

  module _ (laws : DatabaseLaws db) where
    all_there : db.State → List Webhook → Bool
    all_there s = all (λ w. laws.has_webhook w.id s)

    all_there-filter :
        (q : Webhook → Bool) (ws : List Webhook) (s : db.State)
        → all_there s ws ≡ true
        → all_there s (filter q ws) ≡ true
    unfolding all_there
    all_there-filter q [] s h = refl
    all_there-filter q (w ∷ ws) s h = ground (arith, all_there-filter q ws s)

    all_there_later :
        (ws : List Webhook) (s t : db.State)
        → ((i : String) → laws.has_webhook i s ≡ true → laws.has_webhook i t ≡ true)
        → all_there s ws ≡ true
        → all_there t ws ≡ true
    unfolding all_there
    all_there_later [] s t k h = refl
    all_there_later (w ∷ ws) s t k h = ground (arith, k w.id, all_there_later ws s t k)

    concerned_there :
        (event : WebhookEvent) (content_type_id : String) (s : db.State)
        → all_there s (filter (concerns content_type_id) (db.find_webhooks event s)) ≡ true
    unfolding all_there
    concerned_there event c s =
        all_there-filter (concerns c) (db.find_webhooks event s) s (laws.find_webhooks_lem event s)

    insert_each_lem :
        (event : WebhookEvent) (content_type_id : String) (entry_id : Option String)
        (build : String → ℕ → Payload D) (now : ℕ) (ws : List Webhook) (s : db.State)
        → all_there s ws ≡ true
        → (s' : db.State) × (insert_each event content_type_id entry_id build now ws s ≡ some s')
          × Permᴰ (db.versions s') (db.versions s)
    unfolding insert_each insert_one all_there
    insert_each_lem event c e build now [] s h = (s, refl, Permᴰ.refl (db.versions s))
    insert_each_lem event c e build now (w ∷ ws) s h =
        let (i, s₁, made, same, kept, fill) =
          laws.create_delivery_lem
            (record {
              webhook_id = w.id;
              event = event;
              content_type_id = c;
              entry_id = e;
              next_attempt_at = now;
            })
            s (ground arith) in
        let (s₂, filled, same₂, kept₂) = fill (build i now) in
        let (s₃, done, same₃) =
          insert_each_lem event c e build now ws s₂
            (all_there_later ws s s₂ (λ j k. kept₂ j (kept j k)) (ground arith)) in
        (s₃, rw (made, filled) done, Permᴰ.trans same₃ (Permᴰ.trans same₂ same))

    -- Enqueueing the event of an entry succeeds, whatever the webhooks, and touches no version.
    pub enqueue_webhook_deliveries_lem :
        (event : WebhookEvent) (content_type : ContentTypeRef) (entry : WebhookEntrySnapshot D)
        (now : ℕ) (s : db.State)
        → (s' : db.State) × (enqueue_webhook_deliveries event content_type entry now s ≡ some s')
          × Permᴰ (db.versions s') (db.versions s)
    unfolding enqueue_webhook_deliveries insert_deliveries
    enqueue_webhook_deliveries_lem event content_type entry now s =
        insert_each_lem event content_type.id (some entry.id)
          (λ delivery_id at. entry_payload event delivery_id at content_type entry) now
          (filter (concerns content_type.id) (db.find_webhooks event s)) s
          (concerned_there event content_type.id s)

    pub enqueue_entry_draft_sync_lem :
        (content_type_id entry_id : String) (now : ℕ) (s : db.State)
        → (s' : db.State) × (enqueue_entry_draft_sync content_type_id entry_id now s ≡ some s')
          × Permᴰ (db.versions s') (db.versions s)
    unfolding enqueue_entry_draft_sync insert_deliveries
    enqueue_entry_draft_sync_lem content_type_id entry_id now s =
        insert_each_lem entry_draft_sync content_type_id (some entry_id)
          (λ delivery_id at. draft_sync_payload delivery_id content_type_id entry_id at) now
          (filter (concerns content_type_id) (db.find_webhooks entry_draft_sync s)) s
          (concerned_there entry_draft_sync content_type_id s)
