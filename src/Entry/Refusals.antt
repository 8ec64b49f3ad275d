-- ===== src/Entry/Refusals.antt =====
-- When a transition or a discard is refused, and what a discard leaves.
use boject_cms.Common.{
  ℕ, ◌≡◌, refl, List, Bool, true, false, ◌||◌, eqb, leb, Option, none, some, arith, ◌∙◌,
  Option-cases, inl, inr,
}
use boject_cms.Entry.Version.{
  draft, published, changed, archived, ContentEntry, ContentEntryVersion, find_status,
  get_draft_version, get_published_version,
}
use boject_cms.Entry.Transition.{
  TransitionAction, unpublish, archive, unarchive, republish, TransitionPlan, ok, error,
  plan_transition, plan_unpublish, plan_archive,
}
use boject_cms.Entry.Rows.{tally}
use boject_cms.Entry.RowLaws.{find_status-hit, find_status-miss, tally-perm}
use boject_cms.Entry.RowSearch.{find_status-some, find_status-none}
use boject_cms.Entry.Database.{Database, DatabaseLaws}
use boject_cms.Entry.Effects.{delete_effect}
use boject_cms.Entry.Handlers.{done, discard_draft, FlatEntry}
use boject_cms.Entry.WriteLaws.{Counts}
use boject_cms.Webhook.Enqueue.{enqueue_entry_draft_sync_lem}

-- The specification of the refusals, by the number of versions of each status.
abbrev pub refused {ℓ} : {D : Type ℓ} → TransitionAction → List (ContentEntryVersion D) → Bool
refused unpublish vs = eqb (tally published vs) 0
refused archive vs = eqb (tally published vs) 0 || leb 1 (tally changed vs)
refused unarchive vs = eqb (tally archived vs) 0
refused republish vs = eqb (tally published vs) 0

abbrev pub is_error {ℓ} : {D : Type ℓ} → TransitionPlan D → Bool
is_error (ok _ _ _) = false
is_error (error _ _) = true

module _ {ℓ} {D : Type ℓ} (entry : ContentEntry) where
  unpublish_accepts :
      (p : ContentEntryVersion D) (working : Option (ContentEntryVersion D))
      → is_error (plan_unpublish entry (some p) working) ≡ false
  unfolding plan_unpublish
  unpublish_accepts p none = refl
  unpublish_accepts p (some d) = ground arith

  archive_accepts :
      (p : ContentEntryVersion D) (vs : List (ContentEntryVersion D))
      → is_error (plan_archive entry (some p) (get_draft_version vs)) ≡ leb 1 (tally changed vs)
  unfolding plan_archive get_draft_version
  archive_accepts p vs = elim (Option-cases (find_status changed vs)) [
    | inl hc ↦
        let c0 = find_status-miss changed vs hc in
        rw hc (elim (Option-cases (find_status draft vs)) [
          | inl hd ↦ rw (hd, c0)
          | inr (d, hd) ↦ rw (hd, (find_status-hit draft vs d hd).0, c0)
        ])
    | inr (c, hc) ↦ let (st, _, one) = find_status-hit changed vs c hc in rw (hc, st) (ground arith)
  ]

  -- Whatever the versions, a plan is an error exactly where the counts of versions by status say so:
  -- no published version to unpublish, archive or republish, a changed version at an archive, no
  -- archived version to unarchive.
  pub plan_transition-refused :
      (vs : List (ContentEntryVersion D)) (action : TransitionAction)
      → is_error (plan_transition entry vs action) ≡ refused action vs
  unfolding plan_transition get_published_version
  plan_transition-refused vs unpublish = elim (Option-cases (find_status published vs)) [
    | inl hp ↦ rw (hp, find_status-miss published vs hp)
    | inr (p, hp) ↦
        let one = (find_status-hit published vs p hp).2 in
        rw hp (unpublish_accepts p (get_draft_version vs) ∙ ground arith)
  ]
  plan_transition-refused vs archive = elim (Option-cases (find_status published vs)) [
    | inl hp ↦ rw (hp, find_status-miss published vs hp)
    | inr (p, hp) ↦
        let one = (find_status-hit published vs p hp).2 in
        rw hp (archive_accepts p vs ∙ ground arith)
  ]
  plan_transition-refused vs unarchive =
      ground (arith, find_status-miss archived vs, find_status-none archived vs)
  plan_transition-refused vs republish =
      ground (arith, find_status-miss published vs, find_status-none published vs)

module _ {D : Type 0} {db : Database D} (laws : DatabaseLaws db) (entry : ContentEntry)
    (now : ℕ) where
  -- Discarding the draft of an entry that has one published and one changed version, and no draft
  -- version, goes through: it answers with the published version and leaves no changed version,
  -- the counts of the other statuses unchanged.
  pub discard_draft_lem :
      (s : db.State) {a : ℕ}
      → Counts 0 1 1 a (db.versions s)
      → (s' : db.State) × (r : FlatEntry D) × (discard_draft db (some entry) now s ≡ done s' r)
        × (find_status published (db.versions s) ≡ some (r.version))
        × Counts 0 1 0 a (db.versions s')
  unfolding discard_draft get_draft_version get_published_version
  discard_draft_lem s {a} k =
      let (p, hp) = find_status-some published (db.versions s) (omega (arith, k.publisheds)) in
      let (c, hc) = find_status-some changed (db.versions s) (omega (arith, k.changeds)) in
      let (s₁, deleted, count, _) = delete_effect laws changed c s hc in
      let (s₂, synced, same) =
        enqueue_entry_draft_sync_lem db laws entry.content_type_id entry.id now s₁ in
      (
        s₂,
        record { entry = entry; version = p; extras = none },
        rw (hc, discard_draft) (rw (hp, discard_draft) (rw (deleted, synced))),
        hp,
        record {
          drafts = omega (arith, k.drafts, count draft, tally-perm draft same);
          publisheds = omega (arith, k.publisheds, count published, tally-perm published same);
          changeds = omega (arith, k.changeds, count changed, tally-perm changed same);
          archiveds = omega (arith, k.archiveds, count archived, tally-perm archived same);
        },
      )
