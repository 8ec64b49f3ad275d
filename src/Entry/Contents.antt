-- ===== src/Entry/Contents.antt =====
-- What `publishEntry` and `upsertEntryDraft` store.
use mathlib.Core.List.{Permᴰ}
use mathlib.Core.Path.{subst}
use mathlib.Core.Option.{some-injective}
use boject_cms.Common.{
  ℕ, ◌≤◌, ◌≡◌, ◌-◌, refl, sym, ap, inl, Option-cases, Option, none, some, arith, inr, ◌∙◌, ◌>>=◌,
}
use boject_cms.Entry.Version.{
  published, archived, ContentEntry, get_draft_version, get_published_version, find_status,
}
use boject_cms.Entry.Transition.{entry_published}
use boject_cms.Entry.Rows.{tally}
use boject_cms.Entry.RowLaws.{tally-perm}
use boject_cms.Entry.Database.{ContentTypeRef, Database, DatabaseLaws}
use boject_cms.Entry.Handlers.{done}
use boject_cms.Entry.Writes.{
  ContentOps, published_snapshot, first_published, drop_published, write_version,
  announce_published, publish_tx, publish_entry, target_status, upsert_tx, upsert_entry_draft,
  settle,
}
use boject_cms.Entry.WriteLaws.{HasSlots, Counts}
use boject_cms.Entry.PublishLaws.{Accepted, content_of, publish_tx_lem, upsert_tx_lem}
use boject_cms.Entry.Stored.{Holds, write_version-Holds, Holds-perm}
use boject_cms.Webhook.Enqueue.{
  enqueue_webhook_deliveries, enqueue_webhook_deliveries_lem, enqueue_entry_draft_sync_lem,
}

bind_some {ℓ κ} :
    {A : Type ℓ} {B : Type κ} (o : Option A) (f : A → Option B) (b : B)
    → (o >>= f) ≡ some b
    → (a : A) × (o ≡ some a) × (f a ≡ some b)
bind_some none f b e = cc
bind_some (some a) f b e = (a, refl, e)

module _ {D : Type 0} {db : Database D} (laws : DatabaseLaws db) (ops : ContentOps D)
    (entry : ContentEntry) (content_type : ContentTypeRef) (now : ℕ) where
  announce_published-perm :
      (content : D) (s t : db.State)
      → announce_published db ops entry content_type content now s ≡ some t
      → Permᴰ (db.versions t) (db.versions s)
  unfolding announce_published
  announce_published-perm content s t e =
      let (s₁, updated, e₁) = bind_some _ _ t e in
      let (row, _, e₂) =
        bind_some (find_status published (db.versions s₁))
          (λ row.
            enqueue_webhook_deliveries db entry_published content_type
              (published_snapshot db ops entry (ops.extract_entry_title content)
                (ops.extract_slug content) row now)
              now s₁)
          t e₁ in
      let (s₂, made, perm) =
        enqueue_webhook_deliveries_lem db laws entry_published content_type
          (published_snapshot db ops entry (ops.extract_entry_title content)
            (ops.extract_slug content) row now)
          now s₁ in
      let q =
        subst (λ u. Permᴰ (db.versions u) (db.versions s₁)) (some-injective _ _ (sym made ∙ e₂))
          perm in
      Permᴰ.trans q (
        laws.envelope_lem (ops.extract_slug content) (ops.extract_entry_title content) s s₁ updated)

  publish_tx-Holds :
      (content : D) (s t : db.State)
      → publish_tx db ops entry content_type content now s ≡ some t
      → tally published (db.versions t) ≤ 1
      → Holds laws ops published content
          (some (first_published db ops (get_published_version (db.versions s)) now))
          t
  unfolding publish_tx
  publish_tx-Holds content s t e few =
      let old = get_published_version (db.versions s) in
      let working = get_draft_version (db.versions s) in
      let at = some (first_published db ops old now) in
      let announce = λ (u : db.State). announce_published db ops entry content_type content now u in
      let (s₁, _, e₁) =
        bind_some (drop_published db ops old s)
          (λ u. write_version db ops working published content at u >>= announce) t e in
      let (s₂, written, e₂) =
        bind_some (write_version db ops working published content at s₁) announce t e₁ in
      let q = announce_published-perm content s₂ t e₂ in
      let few₂ = subst (λ n. n ≤ 1) (tally-perm published q) few in
      Holds-perm laws ops published content at s₂ t q few₂
        (write_version-Holds laws ops working published content at s₁ s₂ written few₂)

  -- `publishEntry` with something to publish, whose slug and title are free, goes through on
  -- versions that fit their slots, and then the published version holds the content with its title;
  -- its time of publication is that of the version published before, or now.
  pub publish_entry-Holds :
      (validated : Option D) (content : D) (s : db.State)
      → HasSlots (db.versions s)
      → content_of laws ops entry content_type now validated (db.versions s) ≡ some content
      → Accepted laws ops content
      → (s' : db.State) × (publish_entry db ops entry content_type validated now s ≡ done s' tt)
        × Holds laws ops published content
            (some (first_published db ops (get_published_version (db.versions s)) now))
            s'
  unfolding publish_entry
  publish_entry-Holds validated content s i given accepted =
      let (s', committed, k) =
        publish_tx_lem laws ops entry content_type now content s i accepted in
      (
        s',
        rw (given, publish_entry) (rw committed),
        publish_tx-Holds content s s' committed (omega (arith, k.publisheds)),
      )

  upsert_tx-Holds :
      (content : D) (s t : db.State)
      → upsert_tx db ops entry content_type content now s ≡ some t
      → tally (target_status db ops (get_published_version (db.versions s))) (db.versions t) ≤ 1
      → Holds laws ops (target_status db ops (get_published_version (db.versions s))) content none t
  unfolding upsert_tx
  upsert_tx-Holds content s t e few =
      let st = target_status db ops (get_published_version (db.versions s)) in
      let (s₁, written, e₁) = bind_some _ _ t e in
      let (s₂, updated, e₂) = bind_some _ _ t e₁ in
      let (s₃, made, perm) = enqueue_entry_draft_sync_lem db laws content_type.id entry.id now s₂ in
      let synced =
        subst (λ u. Permᴰ (db.versions u) (db.versions s₂)) (some-injective _ _ (sym made ∙ e₂))
          perm in
      let q = Permᴰ.trans synced (
        laws.envelope_lem (ops.extract_slug content) (ops.extract_entry_title content) s₁ s₂
          updated) in
      let few₁ = subst (λ n. n ≤ 1) (tally-perm st q) few in
      Holds-perm laws ops st content none s₁ t q few₁
        (write_version-Holds laws ops _ st content none s s₁ written few₁)

  target_few :
      (s t : db.State)
      → HasSlots (db.versions s)
      → Counts
          (1 - tally published (db.versions s))
          (tally published (db.versions s))
          (tally published (db.versions s))
          (tally archived (db.versions s))
          (db.versions t)
      → tally (target_status db ops (get_published_version (db.versions s))) (db.versions t) ≤ 1
  unfolding get_published_version
  target_few s t i k = elim (Option-cases (find_status published (db.versions s))) [
    | inl absent ↦ rw absent (omega (arith, k.drafts))
    | inr (p, there) ↦ rw there (omega (arith, k.changeds, i.live_slot))
  ]

  -- `upsertEntryDraft` of data that validates, whose slug and title are free, goes through on
  -- versions that fit their slots, and then the changed version, where one is published, or the
  -- draft, where none is, holds the enriched data with its title.
  pub upsert_entry_draft-Holds :
      (raw content : D) (s : db.State)
      → HasSlots (db.versions s)
      → ops.validate raw ≡ inr content
      → Accepted laws ops content
      → (s' : db.State) × (upsert_entry_draft db ops entry content_type (some raw) now s
          ≡ done s' tt)
        × Holds laws ops
            (target_status db ops (get_published_version (db.versions s)))
            content
            none
            s'
  unfolding upsert_entry_draft
  upsert_entry_draft-Holds raw content s i valid accepted =
      let (s', saved, k) = upsert_tx_lem laws ops entry content_type now content s i accepted in
      (
        s',
        rw (valid, upsert_entry_draft) (ap (settle db ops s) saved),
        upsert_tx-Holds content s s' saved (target_few s s' i k),
      )
