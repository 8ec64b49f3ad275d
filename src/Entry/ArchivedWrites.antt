-- ===== src/Entry/ArchivedWrites.antt =====
-- What happens when an archived entry is written before it is unarchived: no handler refuses the
-- write, and the two-slot invariant that entryTransitions.ts relies on is lost.
use boject_cms.Common.{
  ℕ, ◌+◌, ◌≤◌, ◌<◌, ◌≡◌, refl, List, false, none, some, arith, ◌∙◌, Option-cases, inl, inr,
}
use boject_cms.Entry.Version.{
  draft, published, changed, archived, ContentEntry, ContentEntryVersion, find_status,
  get_draft_version,
}
use boject_cms.Entry.Transition.{unpublish, unarchive}
use boject_cms.Entry.Rows.{VersionPatch, tally, patch_row, index_ok}
use boject_cms.Entry.RowLaws.{tally-perm, tally-patch_row}
use boject_cms.Entry.RowSearch.{find_status-some}
use boject_cms.Entry.Database.{ContentTypeRef, Database, DatabaseLaws}
use boject_cms.Entry.Effects.{update_effect, delete_effect}
use boject_cms.Entry.Handlers.{
  done, crashed, FlatEntry, apply_transition_mutations, run_plan, transition_handler,
}
use boject_cms.Entry.Settled.{
  IsOnly, plan_unarchive_ok, plan_unpublish_changed, handler_done, handler_crashed,
}
use boject_cms.Entry.Writes.{ContentOps, publish_entry, upsert_entry_draft}
use boject_cms.Entry.WriteLaws.{HasSlots, Counts}
use boject_cms.Entry.PublishLaws.{Accepted, publish_entry_lem, upsert_entry_draft_lem}
use boject_cms.Webhook.Enqueue.{enqueue_entry_draft_sync_lem}

index_full {ℓ} :
    {D : Type ℓ} (vs : List (ContentEntryVersion D)) → 1 < tally draft vs → index_ok vs ≡ false
index_full vs h = ground arith

module _ {D : Type 0} {db : Database D} (laws : DatabaseLaws db) (entry : ContentEntry)
    (content_type : ContentTypeRef) (now : ℕ) where
  shown_some :
      (s : db.State)
      → 1 ≤ tally draft (db.versions s)
      → (v : ContentEntryVersion D) × (get_draft_version (db.versions s) ≡ some v)
  unfolding get_draft_version
  shown_some s h =
      let (d, hd) = find_status-some draft (db.versions s) h in
      elim (Option-cases (find_status changed (db.versions s))) [
        | inl none_changed ↦ (d, rw none_changed hd)
        | inr (c, hc) ↦ (c, rw hc)
      ]

  HasSlots-of_Counts :
      (s : db.State) {d p c a : ℕ}
      → Counts d p c a (db.versions s)
      → d + p ≤ 1
      → c ≤ p
      → HasSlots (db.versions s)
  HasSlots-of_Counts s k h l = record {
    live_slot = omega (arith, k.drafts, k.publisheds);
    beside = omega (arith, k.changeds, k.publisheds);
  }

  -- Unarchiving an entry that has a draft beside an archived version always fails, the state
  -- unchanged: the write breaks the partial unique index.
  pub unarchive_beside_draft :
      (s : db.State)
      → 1 ≤ tally archived (db.versions s)
      → 1 ≤ tally draft (db.versions s)
      → transition_handler db unarchive (some entry) content_type now s ≡ crashed s
  unfolding run_plan apply_transition_mutations
  unarchive_beside_draft s ha hd =
      let (a, found) = find_status-some archived (db.versions s) ha in
      let patch : VersionPatch D = record {
        status = draft;
        published_at = some none;
        content = none;
      } in
      let conflict = laws.update_conflict a.id patch s (
        index_full (patch_row a.id patch (db.versions s)) (
          omega (
            arith,
            tally-patch_row archived draft patch (db.versions s) a (laws.unique_ids s) found,
          ))) in
      handler_crashed laws entry content_type now unarchive s
        (plan_unarchive_ok entry (db.versions s) a found) (rw conflict)

  -- Unarchiving an entry whose draft slot is free turns the archived version into a draft, whatever
  -- stands in the other slots.
  unarchive_free :
      (s : db.State) {p c : ℕ}
      → Counts 0 p c 1 (db.versions s)
      → p ≤ 1
      → c ≤ 1
      → (s' : db.State) × (r : FlatEntry D) × (transition_handler db unarchive
            (some entry)
            content_type
            now
            s
          ≡ done s' r)
        × Counts 1 p c 0 (db.versions s')
  unfolding run_plan apply_transition_mutations
  unarchive_free s {p} {c} k hp hc =
      let (a, ha) = find_status-some archived (db.versions s) (omega (arith, k.archiveds)) in
      let (s₁, updated, count) =
        update_effect laws archived a
          (record { status = draft; published_at = some none; content = none }) s ha
          (omega arith) in
      let (s₂, synced, same) =
        enqueue_entry_draft_sync_lem db laws content_type.id entry.id now s₁ in
      let k₂ : Counts 1 p c 0 (db.versions s₂) = record {
        drafts = omega (arith, k.drafts, count draft, tally-perm draft same);
        publisheds = omega (arith, k.publisheds, count published, tally-perm published same);
        changeds = omega (arith, k.changeds, count changed, tally-perm changed same);
        archiveds = omega (arith, k.archiveds, count archived, tally-perm archived same);
      } in
      let (v, found) = shown_some s₂ (omega (arith, k₂.drafts)) in
      (
        s₂,
        _,
        handler_done laws entry content_type now unarchive s s₂
            (plan_unarchive_ok entry (db.versions s) a ha) (rw (updated, synced)) found,
        k₂,
      )

  -- With a draft and a changed version at once, unpublishing always fails on the index.
  unpublish_stuck :
      (s : db.State)
      → Counts 1 1 1 0 (db.versions s)
      → transition_handler db unpublish (some entry) content_type now s ≡ crashed s
  unfolding run_plan apply_transition_mutations
  unpublish_stuck s k =
      let (p, hp) = find_status-some published (db.versions s) (omega (arith, k.publisheds)) in
      let (c, hc) = find_status-some changed (db.versions s) (omega (arith, k.changeds)) in
      let (s₁, deleted, count, search) = delete_effect laws published p s hp in
      let patch : VersionPatch D = record {
        status = draft;
        published_at = some none;
        content = none;
      } in
      let kept = search changed refl (omega (arith, k.changeds)) ∙ hc in
      let conflict = laws.update_conflict c.id patch s₁ (
        index_full (patch_row c.id patch (db.versions s₁)) (
          omega (
            arith,
            count draft,
            k.drafts,
            tally-patch_row changed draft patch (db.versions s₁) c (laws.unique_ids s₁) kept,
          ))) in
      handler_crashed laws entry content_type now unpublish s
        (plan_unpublish_changed entry (db.versions s) p c hp hc) (rw (deleted, conflict))

  module _ (ops : ContentOps D) (raw content : D) (valid : ops.validate raw ≡ inr content)
      (accepted : Accepted laws ops content) where
    -- An entry whose one version is archived is saved, published, saved again and unarchived, each
    -- with success where the data validates and its slug and title are free. It then has a draft, a
    -- published and a changed version, and unpublishing it fails.
    pub archived_writes :
        (s : db.State)
        → IsOnly archived (db.versions s)
        → (s₁ s₂ s₃ s₄ : db.State) × (r : FlatEntry D) × (upsert_entry_draft db ops entry
              content_type
              (some raw)
              now
              s
            ≡ done s₁ tt)
          × (publish_entry db ops entry content_type (some content) now s₁ ≡ done s₂ tt)
          × (upsert_entry_draft db ops entry content_type (some raw) now s₂ ≡ done s₃ tt)
          × (transition_handler db unarchive (some entry) content_type now s₃ ≡ done s₄ r)
          × Counts 1 1 1 0 (db.versions s₄)
          × (transition_handler db unpublish (some entry) content_type now s₄ ≡ crashed s₄)
    archived_writes s o =
        let (s₁, saved, k₁) =
          upsert_entry_draft_lem laws ops entry content_type now raw content s (omega arith) valid
            accepted in
        let (s₂, published_it, k₂) =
          publish_entry_lem laws ops entry content_type now (some content) content s₁
            (HasSlots-of_Counts s₁ k₁ (omega arith) (omega arith)) refl accepted in
        let (s₃, again, k₃) =
          upsert_entry_draft_lem laws ops entry content_type now raw content s₂
            (HasSlots-of_Counts s₂ k₂ (omega arith) (omega arith)) valid accepted in
        let k : Counts 0 1 1 1 (db.versions s₃) = record {
          drafts = omega (arith, k₃.drafts, k₂.publisheds);
          publisheds = omega (arith, k₃.publisheds, k₂.publisheds);
          changeds = omega (arith, k₃.changeds, k₂.publisheds);
          archiveds = omega (arith, k₃.archiveds, k₂.archiveds, k₁.archiveds, o.only_archived);
        } in
        let (s₄, r, unarchived, k₄) = unarchive_free s₃ k (omega arith) (omega arith) in
        (s₁, s₂, s₃, s₄, r, saved, published_it, again, unarchived, k₄, unpublish_stuck s₄ k₄)
