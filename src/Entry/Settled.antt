-- ===== src/Entry/Settled.antt =====
-- The invariant of an entry's versions, and that unpublish, archive, unarchive and republish keep it.
use boject_cms.Common.{ℕ, ◌+◌, ◌≤◌, ◌≡◌, refl, List, [], ◌∷◌, Option, none, some}
use boject_cms.Entry.Version.{
  ContentStatus, draft, published, changed, archived, same_status, ContentEntry,
  ContentEntryVersion, find_status,
}
use boject_cms.Entry.Transition.{
  TransitionAction, unpublish, archive, unarchive, plan_transition, ok, VersionMutation,
  update_status, delete, WebhookEvent, entry_unpublished, WebhookEntrySnapshot,
  snapshot_from_published,
}
use boject_cms.Entry.Rows.{one_if, tally}
use boject_cms.Entry.RowLaws.{find_status-hit}
use boject_cms.Entry.Database.{ContentTypeRef, Database, DatabaseLaws}
use boject_cms.Entry.Handlers.{done, crashed, run_plan, transition_handler, shown, extras_of}

-- One of DRAFT, PUBLISHED and ARCHIVED, and a CHANGED version only beside a PUBLISHED one.
pub record IsSettled {ℓ} {D : Type ℓ} (vs : List (ContentEntryVersion D)) : Type 0 where
  pub one_slot : tally draft vs + tally published vs + tally archived vs ≡ 1
  pub beside : tally changed vs ≤ tally published vs

-- The versions are exactly one of the status.
pub record IsOnly {ℓ} {D : Type ℓ} (st : ContentStatus) (vs : List (ContentEntryVersion D))
    : Type 0 where
  pub only_draft : tally draft vs ≡ one_if (same_status st draft)
  pub only_published : tally published vs ≡ one_if (same_status st published)
  pub only_changed : tally changed vs ≡ one_if (same_status st changed)
  pub only_archived : tally archived vs ≡ one_if (same_status st archived)

module _ {D : Type 0} (entry : ContentEntry) (vs : List (ContentEntryVersion D)) where
  pub plan_archive_ok :
      (p : ContentEntryVersion D)
      → find_status published vs ≡ some p
      → find_status changed vs ≡ none
      → find_status draft vs ≡ none
      → plan_transition entry vs archive
        ≡ ok
            (update_status p.id archived none ∷ [])
            (some entry_unpublished)
            (some (snapshot_from_published entry p))
  unfolding plan_transition
  plan_archive_ok p hp hc hd = rw (hp, hc, hd)

  pub plan_unpublish_ok :
      (p : ContentEntryVersion D)
      → find_status published vs ≡ some p
      → find_status changed vs ≡ none
      → find_status draft vs ≡ none
      → plan_transition entry vs unpublish
        ≡ ok
            (update_status p.id draft (some none) ∷ [])
            (some entry_unpublished)
            (some (snapshot_from_published entry p))
  unfolding plan_transition
  plan_unpublish_ok p hp hc hd = rw (hp, hc, hd)

  pub plan_unpublish_changed :
      (p c : ContentEntryVersion D)
      → find_status published vs ≡ some p
      → find_status changed vs ≡ some c
      → plan_transition entry vs unpublish
        ≡ ok
            (delete p.id ∷ update_status c.id draft (some none) ∷ [])
            (some entry_unpublished)
            (some (snapshot_from_published entry p))
  unfolding plan_transition
  plan_unpublish_changed p c hp hc = rw (hp, hc) (rw ((find_status-hit changed vs c hc).0) refl)

  pub plan_unarchive_ok :
      (a : ContentEntryVersion D)
      → find_status archived vs ≡ some a
      → plan_transition entry vs unarchive
        ≡ ok (update_status a.id draft (some none) ∷ []) none none
  unfolding plan_transition
  plan_unarchive_ok a ha = rw ha

module _ {D : Type 0} {db : Database D} (laws : DatabaseLaws db) (entry : ContentEntry)
    (content_type : ContentTypeRef) (now : ℕ) where
  -- A handler answers with the version that its refetch finds, once its transaction is through.
  pub handler_done :
      (action : TransitionAction) (s s' : db.State) {ms : List VersionMutation}
      {event : Option WebhookEvent} {snapshot : Option (WebhookEntrySnapshot D)}
      {v : ContentEntryVersion D}
      → plan_transition entry (db.versions s) action ≡ ok ms event snapshot
      → run_plan db action entry content_type ms event snapshot now s ≡ some s'
      → shown db action (db.versions s') ≡ some v
      → transition_handler db action (some entry) content_type now s
        ≡ done s' (record { entry = entry; version = v; extras = some (extras_of db action v) })
  unfolding transition_handler
  handler_done action s s' planned ran found =
      rw (planned, transition_handler) (rw (ran, transition_handler) (rw found))

  pub handler_crashed :
      (action : TransitionAction) (s : db.State) {ms : List VersionMutation}
      {event : Option WebhookEvent} {snapshot : Option (WebhookEntrySnapshot D)}
      → plan_transition entry (db.versions s) action ≡ ok ms event snapshot
      → run_plan db action entry content_type ms event snapshot now s ≡ none
      → transition_handler db action (some entry) content_type now s ≡ crashed s
  unfolding transition_handler
  handler_crashed action s planned ran =
      rw (planned, transition_handler) (rw (ran, transition_handler))
