-- ===== src/Entry/PublishLaws.antt =====
-- `publishEntry` and `upsertEntryDraft` as wholes.
use boject_cms.Common.{
  ℕ, ◌≤◌, ◌≡◌, List, Option, none, some, arith, ◌∙◌, ap, ◌-◌, ◌<|>◌, Option-cases, inl, inr,
}
use boject_cms.Entry.Version.{
  ContentStatus, draft, published, changed, archived, ContentEntry, ContentEntryVersion,
  find_status, get_draft_version, get_published_version,
}
use boject_cms.Entry.Transition.{entry_published}
use boject_cms.Entry.Rows.{tally}
use boject_cms.Entry.RowLaws.{find_status-hit, find_status-miss, tally-perm}
use boject_cms.Entry.RowSearch.{find_status-some, find_status-none}
use boject_cms.Entry.Database.{ContentTypeRef, Database, DatabaseLaws}
use boject_cms.Entry.Handlers.{done}
use boject_cms.Entry.Writes.{
  ContentOps, announce_published, published_snapshot, publish_tx, publish_entry, target_status,
  upsert_tx, upsert_entry_draft, data_of?, first_published, settle,
}
use boject_cms.Entry.WriteLaws.{
  HasSlots, Counts, publish_first, publish_again, write_new, write_over, Writes,
}
use boject_cms.Webhook.Enqueue.{enqueue_webhook_deliveries_lem, enqueue_entry_draft_sync_lem}

module _ {D : Type 0} {db : Database D} (laws : DatabaseLaws db) (ops : ContentOps D) where
  over_draft :
      (content : D) (s : db.State)
      → HasSlots (db.versions s)
      → tally published (db.versions s) ≡ 0
      → Writes laws ops draft content none
          (get_draft_version (db.versions s))
          s
          (1 - tally published (db.versions s))
          (tally published (db.versions s))
          (tally published (db.versions s))
          (tally archived (db.versions s))
  unfolding get_draft_version
  over_draft content s i p0 =
      let no_changed = find_status-none changed (db.versions s) (omega arith) in
      rw no_changed (elim (Option-cases (find_status draft (db.versions s))) [
        | inl hd ↦
            let d0 = find_status-miss draft (db.versions s) hd in
            let (s', written, k) = write_new laws ops draft content none s (omega arith) in
            rw hd (s', written, omega arith)
        | inr (d, hd) ↦
            let (_, _, d1) = find_status-hit draft (db.versions s) d hd in
            rw hd (
              write_over laws ops draft draft d content none s hd (omega arith) (omega arith)
                (omega arith) (omega arith) (omega arith))
      ])

  over_changed :
      (content : D) (s : db.State)
      → HasSlots (db.versions s)
      → 1 ≤ tally published (db.versions s)
      → Writes laws ops changed content none
          (get_draft_version (db.versions s))
          s
          (1 - tally published (db.versions s))
          (tally published (db.versions s))
          (tally published (db.versions s))
          (tally archived (db.versions s))
  unfolding get_draft_version
  over_changed content s i p1 =
      let no_draft = find_status-none draft (db.versions s) (omega arith) in
      elim (Option-cases (find_status changed (db.versions s))) [
        | inl hc ↦
            let c0 = find_status-miss changed (db.versions s) hc in
            let (s', written, k) = write_new laws ops changed content none s (omega arith) in
            rw (hc, no_draft) (s', written, omega arith)
        | inr (c, hc) ↦
            let (_, _, c1) = find_status-hit changed (db.versions s) c hc in
            rw hc (
              write_over laws ops changed changed c content none s hc (omega arith) (omega arith)
                (omega arith) (omega arith) (omega arith))
      ]

  -- The slug and title are free: the envelope of the entry takes them.
  abbrev pub Accepted : D → Type 0
  Accepted content =
      (s : db.State)
      → (s' : db.State) × (db.update_envelope (ops.extract_slug content)
            (ops.extract_entry_title content) s
          ≡ some s')

  Counts-of_tally :
      (s s' : db.State) {d p c a : ℕ}
      → ((t : ContentStatus) → tally t (db.versions s') ≡ tally t (db.versions s))
      → Counts d p c a (db.versions s)
      → Counts d p c a (db.versions s')
  Counts-of_tally s s' e k = record {
    drafts = e draft ∙ k.drafts;
    publisheds = e published ∙ k.publisheds;
    changeds = e changed ∙ k.changeds;
    archiveds = e archived ∙ k.archiveds;
  }

  module _ (entry : ContentEntry) (content_type : ContentTypeRef) (now : ℕ) where
    announce_published_lem :
        (content : D) (s : db.State) {d c a : ℕ}
        → Counts d 1 c a (db.versions s)
        → Accepted content
        → (s' : db.State) × (announce_published db ops entry content_type content now s ≡ some s')
          × Counts d 1 c a (db.versions s')
    unfolding announce_published
    announce_published_lem content s k accepted =
        let (s₁, updated) = accepted s in
        let same =
          laws.envelope_lem (ops.extract_slug content) (ops.extract_entry_title content) s s₁
            updated in
        let k₁ = Counts-of_tally s s₁ (λ t. tally-perm t same) k in
        let (row, found) =
          find_status-some published (db.versions s₁) (omega (arith, k₁.publisheds)) in
        let (s₂, announced, same₂) =
          enqueue_webhook_deliveries_lem db laws entry_published content_type
            (published_snapshot db ops entry (ops.extract_entry_title content)
              (ops.extract_slug content) row now)
            now s₁ in
        (s₂, rw (updated, found) announced, Counts-of_tally s₁ s₂ (λ t. tally-perm t same₂) k₁)

    -- The transaction of a publish goes through and leaves one published version, and the archived
    -- versions that there were.
    pub publish_tx_lem :
        (content : D) (s : db.State)
        → HasSlots (db.versions s)
        → Accepted content
        → (s' : db.State) × (publish_tx db ops entry content_type content now s ≡ some s')
          × Counts 0 1 0 (tally archived (db.versions s)) (db.versions s')
    unfolding publish_tx get_published_version
    publish_tx_lem content s i accepted =
        elim (Option-cases (find_status published (db.versions s))) [
          | inl hp ↦
              let (s₂, written, k) =
                publish_first laws ops content (some now) s i
                  (find_status-miss published (db.versions s) hp) in
              let (s₃, announced, k') = announce_published_lem content s₂ k accepted in
              (s₃, rw (hp, written) announced, k')
          | inr (p, hp) ↦
              let (s₁, deleted, rest) =
                publish_again laws ops content (some (first_published db ops (some p) now)) s p i
                  hp in
              let (s₂, written, k) = rest in
              let (s₃, announced, k') = announce_published_lem content s₂ k accepted in
              (s₃, rw (hp, deleted, written) announced, k')
        ]

    -- What is published: the validated data, else the draft's, else the published version's.
    abbrev pub content_of : Option D → List (ContentEntryVersion D) → Option D
    content_of validated vs =
        validated
        <|> data_of? db ops (get_draft_version vs)
        <|> data_of? db ops (get_published_version vs)

    -- `publishEntry` with something to publish, whose slug and title are free, goes through on
    -- versions that fit their slots: it leaves one published version, no draft, no changed version,
    -- and as many archived versions as there were.
    pub publish_entry_lem :
        (validated : Option D) (content : D) (s : db.State)
        → HasSlots (db.versions s)
        → content_of validated (db.versions s) ≡ some content
        → Accepted content
        → (s' : db.State) × (publish_entry db ops entry content_type validated now s ≡ done s' tt)
          × Counts 0 1 0 (tally archived (db.versions s)) (db.versions s')
    unfolding publish_entry
    publish_entry_lem validated content s i given accepted =
        let (s', published_tx, k) = publish_tx_lem content s i accepted in
        (s', rw (given, publish_entry) (rw published_tx), k)

    -- The draft slot that a save writes: DRAFT alone, CHANGED beside a published version.
    saved_version :
        (content : D) (s : db.State)
        → HasSlots (db.versions s)
        → Writes laws ops
            (target_status db ops (get_published_version (db.versions s)))
            content
            none
            (get_draft_version (db.versions s))
            s
            (1 - tally published (db.versions s))
            (tally published (db.versions s))
            (tally published (db.versions s))
            (tally archived (db.versions s))
    unfolding get_published_version get_draft_version
    saved_version content s i = elim (Option-cases (find_status published (db.versions s))) [
      | inl hp ↦ rw hp (over_draft content s i (find_status-miss published (db.versions s) hp))
      | inr (p, hp) ↦
          rw hp (over_changed content s i (find_status-hit published (db.versions s) p hp).2)
    ]

    pub upsert_tx_lem :
        (content : D) (s : db.State)
        → HasSlots (db.versions s)
        → Accepted content
        → (s' : db.State) × (upsert_tx db ops entry content_type content now s ≡ some s')
          × Counts
              (1 - tally published (db.versions s))
              (tally published (db.versions s))
              (tally published (db.versions s))
              (tally archived (db.versions s))
              (db.versions s')
    unfolding upsert_tx
    upsert_tx_lem content s i accepted =
        let (s₁, written, k) = saved_version content s i in
        let (s₂, updated) = accepted s₁ in
        let same =
          laws.envelope_lem (ops.extract_slug content) (ops.extract_entry_title content) s₁ s₂
            updated in
        let (s₃, synced, same₂) =
          enqueue_entry_draft_sync_lem db laws content_type.id entry.id now s₂ in
        (
          s₃,
          rw (written, updated) synced,
          Counts-of_tally s₂ s₃ (λ t. tally-perm t same₂)
              (Counts-of_tally s₁ s₂ (λ t. tally-perm t same) k),
        )

    -- `upsertEntryDraft` of data that validates and whose slug and title are free goes through on
    -- versions that fit their slots: the counts of published and archived versions stay, and there
    -- is one changed version where one was published, one draft where none was.
    pub upsert_entry_draft_lem :
        (raw content : D) (s : db.State)
        → HasSlots (db.versions s)
        → ops.validate raw ≡ inr content
        → Accepted content
        → (s' : db.State) × (upsert_entry_draft db ops entry content_type (some raw) now s
            ≡ done s' tt)
          × Counts
              (1 - tally published (db.versions s))
              (tally published (db.versions s))
              (tally published (db.versions s))
              (tally archived (db.versions s))
              (db.versions s')
    unfolding upsert_entry_draft
    upsert_entry_draft_lem raw content s i valid accepted =
        let (s', saved, k) = upsert_tx_lem content s i accepted in
        (s', rw (valid, upsert_entry_draft) (ap (settle db ops s) saved), k)
