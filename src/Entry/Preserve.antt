-- ===== src/Entry/Preserve.antt =====
-- Unpublish, archive and unarchive on settled versions: what the handlers answer and leave.
use boject_cms.Common.{ℕ, ◌≡◌, refl, none, some, arith, Option-cases, inl, inr, ◌∙◌}
use boject_cms.Entry.Version.{
  ContentStatus, draft, published, changed, archived, ContentEntry, ContentEntryVersion,
  find_status, get_draft_version,
}
use boject_cms.Entry.Transition.{
  TransitionAction, unpublish, archive, unarchive, entry_unpublished, snapshot_from_published,
}
use boject_cms.Entry.Rows.{tally}
use boject_cms.Entry.RowLaws.{find_status-hit, find_status-miss, tally-perm}
use boject_cms.Entry.RowSearch.{find_status-some, find_status-none}
use boject_cms.Entry.Database.{ContentTypeRef, Database, DatabaseLaws}
use boject_cms.Entry.Effects.{delete_effect, update_effect}
use boject_cms.Entry.Handlers.{
  done, FlatEntry, apply_transition_mutations, run_plan, transition_handler,
}
use boject_cms.Entry.Settled.{
  IsSettled, IsOnly, plan_archive_ok, plan_unpublish_ok, plan_unpublish_changed, plan_unarchive_ok,
  handler_done,
}
use boject_cms.Webhook.Enqueue.{enqueue_webhook_deliveries_lem, enqueue_entry_draft_sync_lem}

module _ {D : Type 0} {db : Database D} (laws : DatabaseLaws db) (entry : ContentEntry)
    (content_type : ContentTypeRef) (now : ℕ) where
  IsOnly-of_tally :
      (st : ContentStatus) (s s' : db.State)
      → ((t : ContentStatus) → tally t (db.versions s') ≡ tally t (db.versions s))
      → IsOnly st (db.versions s)
      → IsOnly st (db.versions s')
  IsOnly-of_tally st s s' e o = record {
    only_draft = e draft ∙ o.only_draft;
    only_published = e published ∙ o.only_published;
    only_changed = e changed ∙ o.only_changed;
    only_archived = e archived ∙ o.only_archived;
  }

  -- Archiving a settled entry that has a published and no changed version answers with an archived
  -- version, and leaves one archived version and nothing else.
  pub archive_lem :
      (s : db.State) (p : ContentEntryVersion D)
      → IsSettled (db.versions s)
      → find_status published (db.versions s) ≡ some p
      → tally changed (db.versions s) ≡ 0
      → (s' : db.State) × (r : FlatEntry D) × (transition_handler db archive
            (some entry)
            content_type
            now
            s
          ≡ done s' r)
        × (r.version.status ≡ archived)
        × IsOnly archived (db.versions s')
  unfolding run_plan apply_transition_mutations
  archive_lem s p i hp c =
      let (_, _, one) = find_status-hit published (db.versions s) p hp in
      let no_changed = find_status-none changed (db.versions s) c in
      let no_draft = find_status-none draft (db.versions s) (omega arith) in
      let (s₁, updated, count) =
        update_effect laws published p
          (record { status = archived; published_at = none; content = none }) s hp (omega arith) in
      let (s₂, announced, same) =
        enqueue_webhook_deliveries_lem db laws entry_unpublished content_type
          (snapshot_from_published entry p) now s₁ in
      let only =
        IsOnly-of_tally archived s₁ s₂ (λ t. tally-perm t same)
          (record {
            only_draft = omega (arith, count draft);
            only_published = omega (arith, count published);
            only_changed = omega (arith, count changed);
            only_archived = omega (arith, count archived);
          }) in
      let (v, found) = find_status-some archived (db.versions s₂) (omega arith) in
      (
        s₂,
        _,
        handler_done laws entry content_type now archive s s₂
            (plan_archive_ok entry (db.versions s) p hp no_changed no_draft)
            (rw (updated, announced)) found,
        (find_status-hit archived (db.versions s₂) v found).0,
        only,
      )

  -- The answer of a handler that leaves one draft.
  abbrev ToDraft : TransitionAction → db.State → Type 0
  ToDraft action s =
      (s' : db.State) × (r : FlatEntry D) × (transition_handler db action (some entry) content_type
          now s
        ≡ done s' r)
      × (r.version.status ≡ draft)
      × IsOnly draft (db.versions s')

  -- Once the versions are one draft, the refetch finds it.
  shown_draft :
      (s : db.State)
      → IsOnly draft (db.versions s)
      → (v : ContentEntryVersion D) × (get_draft_version (db.versions s) ≡ some v)
        × (v.status ≡ draft)
  unfolding get_draft_version
  shown_draft s o =
      let (v, found) = find_status-some draft (db.versions s) (omega (arith, o.only_draft)) in
      (
        v,
        rw (find_status-none changed (db.versions s) o.only_changed) found,
        (find_status-hit draft (db.versions s) v found).0,
      )

  unpublish_plain :
      (s : db.State) (p : ContentEntryVersion D)
      → IsSettled (db.versions s)
      → find_status published (db.versions s) ≡ some p
      → find_status changed (db.versions s) ≡ none
      → ToDraft unpublish s
  unfolding run_plan apply_transition_mutations
  unpublish_plain s p i hp hc =
      let (_, _, one) = find_status-hit published (db.versions s) p hp in
      let none_changed = find_status-miss changed (db.versions s) hc in
      let (s₁, updated, count) =
        update_effect laws published p
          (record { status = draft; published_at = some none; content = none }) s hp
          (omega arith) in
      let (s₂, announced, same) =
        enqueue_webhook_deliveries_lem db laws entry_unpublished content_type
          (snapshot_from_published entry p) now s₁ in
      let only =
        IsOnly-of_tally draft s₁ s₂ (λ t. tally-perm t same)
          (record {
            only_draft = omega (arith, count draft);
            only_published = omega (arith, count published);
            only_changed = omega (arith, count changed);
            only_archived = omega (arith, count archived);
          }) in
      let (v, found, is_draft) = shown_draft s₂ only in
      (
        s₂,
        _,
        handler_done laws entry content_type now unpublish s s₂
            (plan_unpublish_ok entry (db.versions s) p hp hc
              (find_status-none draft (db.versions s) (omega arith)))
            (rw (updated, announced)) found,
        is_draft,
        only,
      )

  unpublish_changed :
      (s : db.State) (p c : ContentEntryVersion D)
      → IsSettled (db.versions s)
      → find_status published (db.versions s) ≡ some p
      → find_status changed (db.versions s) ≡ some c
      → ToDraft unpublish s
  unfolding run_plan apply_transition_mutations
  unpublish_changed s p c i hp hc =
      let (_, _, one) = find_status-hit published (db.versions s) p hp in
      let (_, _, one') = find_status-hit changed (db.versions s) c hc in
      let (s₁, deleted, count₁, search) = delete_effect laws published p s hp in
      let kept = search changed refl (omega arith) ∙ hc in
      let (s₂, updated, count₂) =
        update_effect laws changed c
          (record { status = draft; published_at = some none; content = none }) s₁ kept
          (record {
            drafts = omega (arith, count₁ draft);
            publisheds = omega (arith, count₁ published);
            changeds = omega (arith, count₁ changed);
          }) in
      let (s₃, announced, same) =
        enqueue_webhook_deliveries_lem db laws entry_unpublished content_type
          (snapshot_from_published entry p) now s₂ in
      let only =
        IsOnly-of_tally draft s₂ s₃ (λ t. tally-perm t same)
          (record {
            only_draft = omega (arith, count₁ draft, count₂ draft);
            only_published = omega (arith, count₁ published, count₂ published);
            only_changed = omega (arith, count₁ changed, count₂ changed);
            only_archived = omega (arith, count₁ archived, count₂ archived);
          }) in
      let (v, found, is_draft) = shown_draft s₃ only in
      (
        s₃,
        _,
        handler_done laws entry content_type now unpublish s s₃
            (plan_unpublish_changed entry (db.versions s) p c hp hc)
            (rw (deleted, updated, announced)) found,
        is_draft,
        only,
      )

  -- Unpublishing a settled entry that has a published version leaves one draft and nothing else,
  -- whether or not a changed version stood beside it; the answer shows that draft.
  pub unpublish_lem :
      (s : db.State)
      → IsSettled (db.versions s)
      → tally published (db.versions s) ≡ 1
      → ToDraft unpublish s
  unpublish_lem s i one =
      let (p, hp) = find_status-some published (db.versions s) (omega arith) in
      elim (Option-cases (find_status changed (db.versions s))) [
        | inl hc ↦ unpublish_plain s p i hp hc
        | inr (c, hc) ↦ unpublish_changed s p c i hp hc
      ]

  -- Unarchiving an entry whose one version is archived answers with a draft, and leaves one draft
  -- and nothing else.
  pub unarchive_lem : (s : db.State) → IsOnly archived (db.versions s) → ToDraft unarchive s
  unfolding run_plan apply_transition_mutations
  unarchive_lem s o =
      let (a, ha) = find_status-some archived (db.versions s) (omega (arith, o.only_archived)) in
      let (s₁, updated, count) =
        update_effect laws archived a
          (record { status = draft; published_at = some none; content = none }) s ha
          (omega arith) in
      let (s₂, synced, same) =
        enqueue_entry_draft_sync_lem db laws content_type.id entry.id now s₁ in
      let only =
        IsOnly-of_tally draft s₁ s₂ (λ t. tally-perm t same)
          (record {
            only_draft = omega (arith, count draft);
            only_published = omega (arith, count published);
            only_changed = omega (arith, count changed);
            only_archived = omega (arith, count archived);
          }) in
      let (v, found, is_draft) = shown_draft s₂ only in
      (
        s₂,
        _,
        handler_done laws entry content_type now unarchive s s₂
            (plan_unarchive_ok entry (db.versions s) a ha) (rw (updated, synced)) found,
        is_draft,
        only,
      )
