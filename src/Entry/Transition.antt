-- ===== src/Entry/Transition.antt =====
-- apps/cms/server/utils/entryTransitions.ts: the plan of an unpublish, archive, unarchive or
-- republish, as a list of mutations of versions with the webhook event to announce.
use boject_cms.Common.{ℕ, String, Bool, false, List, [], ◌∷◌, Option, none, some, if◌then◌else◌}
use boject_cms.Entry.Version.{
  ContentStatus, draft, published, changed, archived, same_status, ContentEntry,
  ContentEntryVersion, find_status, get_draft_version, get_published_version,
}

pub data TransitionAction : Type 0 where
  unpublish archive unarchive republish : TransitionAction

-- `publishedAt?: Date | null`: `none` where the key is absent, `some none` where it is null.
pub data VersionMutation : Type 0 where
  update_status : String → ContentStatus → Option (Option ℕ) → VersionMutation
  delete : String → VersionMutation

pub data TransitionError : Type 0 where
  wrong_state draft_present not_published : TransitionError

-- `WEBHOOK_EVENTS` of apps/cms/utils/webhookEvents.ts.
pub data WebhookEvent : Type 0 where
  entry_published entry_unpublished entry_deleted content_type_schema_changed : WebhookEvent
  entry_draft_sync content_bulk_sync : WebhookEvent

pub record WebhookEntrySnapshot {ℓ} (D : Type ℓ) : Type ℓ where
  pub id : String
  pub entry_title : String
  pub slug : Option String
  pub status : ContentStatus
  pub published_at : Option ℕ
  pub created_at : ℕ
  pub updated_at : ℕ
  pub data_of : D

pub data TransitionPlan {ℓ} (D : Type ℓ) : Type ℓ where
  ok :
      List VersionMutation
      → Option WebhookEvent
      → Option (WebhookEntrySnapshot D)
      → TransitionPlan D
  error : TransitionError → String → TransitionPlan D

module _ {ℓ} {D : Type ℓ} where
  unfoldable pub snapshot_from_published :
      ContentEntry → ContentEntryVersion D → WebhookEntrySnapshot D
  snapshot_from_published entry version = record {
    id = entry.id;
    entry_title = version.entry_title;
    slug = entry.slug;
    status = published;
    published_at = version.published_at;
    created_at = entry.created_at;
    updated_at = entry.updated_at;
    data_of = version.data_of;
  }

  -- `draft && draft.status === CHANGED`.
  abbrev pub is_changed : Option (ContentEntryVersion D) → Bool
  is_changed none = false
  is_changed (some v) = same_status v.status changed

  -- The case `unpublish`: the published version becomes the draft, or gives way to the changed one.
  unfoldable pub plan_unpublish :
      ContentEntry
      → Option (ContentEntryVersion D)
      → Option (ContentEntryVersion D)
      → TransitionPlan D
  plan_unpublish entry none _ = error wrong_state "Entry is not published"
  plan_unpublish entry (some p) none =
      ok (update_status p.id draft (some none) ∷ []) (some entry_unpublished)
        (some (snapshot_from_published entry p))
  plan_unpublish entry (some p) (some d) =
      if same_status d.status changed
      then ok (delete p.id ∷ update_status d.id draft (some none) ∷ []) (some entry_unpublished)
          (some (snapshot_from_published entry p))
      else ok (update_status p.id draft (some none) ∷ []) (some entry_unpublished)
          (some (snapshot_from_published entry p))

  -- The case `archive`.
  unfoldable pub plan_archive :
      ContentEntry
      → Option (ContentEntryVersion D)
      → Option (ContentEntryVersion D)
      → TransitionPlan D
  plan_archive entry none _ = error wrong_state "Only published entries can be archived"
  plan_archive entry (some p) working =
      if is_changed working
      then error draft_present "Publish or discard your draft before archiving"
      else ok (update_status p.id archived none ∷ []) (some entry_unpublished)
          (some (snapshot_from_published entry p))

  -- The case `unarchive`.
  plan_unarchive : Option (ContentEntryVersion D) → TransitionPlan D
  plan_unarchive none = error wrong_state "Entry is not archived"
  plan_unarchive (some a) = ok (update_status a.id draft (some none) ∷ []) none none

  -- The case `republish`.
  plan_republish : ContentEntry → Option (ContentEntryVersion D) → TransitionPlan D
  plan_republish entry none = error not_published "Entry has no published version to republish"
  plan_republish entry (some p) =
      ok [] (some entry_published) (some (snapshot_from_published entry p))

  unfoldable pub plan_transition :
      ContentEntry → List (ContentEntryVersion D) → TransitionAction → TransitionPlan D
  unfolding plan_unpublish plan_archive plan_unarchive plan_republish get_published_version
      get_draft_version
  plan_transition entry versions unpublish =
      plan_unpublish entry (get_published_version versions) (get_draft_version versions)
  plan_transition entry versions archive =
      plan_archive entry (get_published_version versions) (get_draft_version versions)
  plan_transition entry versions unarchive = plan_unarchive (find_status archived versions)
  plan_transition entry versions republish = plan_republish entry (get_published_version versions)
