-- ===== src/Entry/Version.antt =====
-- apps/cms/utils/contentStatus.ts and apps/cms/server/utils/resolveVersion.ts: the statuses of a
-- content entry's versions, and which version a reader sees. A `Date` is a number of milliseconds,
-- the JSON of a version is the type `D`.
use boject_cms.Common.{ℕ, String, Bool, true, false, List, Option, find?, ◌<|>◌, if◌then◌else◌}

pub data ContentStatus : Type 0 where
  draft published changed archived : ContentStatus

-- `===` on statuses.
abbrev pub same_status : ContentStatus → ContentStatus → Bool
same_status draft draft = true
same_status published published = true
same_status changed changed = true
same_status archived archived = true
same_status _ _ = false

pub record ContentEntryVersion {ℓ} (D : Type ℓ) : Type ℓ where
  pub id : String
  pub status : ContentStatus
  pub data_of : D
  pub entry_title : String
  pub published_at : Option ℕ
  pub created_by : Option String
  pub updated_by : Option String

pub record ContentEntry : Type 0 where
  pub id : String
  pub content_type_id : String
  pub entry_title : String
  pub entry_key : String
  pub slug : Option String
  pub created_at : ℕ
  pub updated_at : ℕ

module _ {ℓ} {D : Type ℓ} where
  abbrev pub has_status : ContentStatus → ContentEntryVersion D → Bool
  has_status st v = same_status v.status st

  -- `versions.find((v) => v.status === st)`.
  abbrev pub find_status :
      ContentStatus → List (ContentEntryVersion D) → Option (ContentEntryVersion D)
  find_status st = find? (has_status st)

  unfoldable pub get_draft_version : List (ContentEntryVersion D) → Option (ContentEntryVersion D)
  get_draft_version versions = find_status changed versions <|> find_status draft versions

  unfoldable pub get_published_version :
      List (ContentEntryVersion D) → Option (ContentEntryVersion D)
  get_published_version versions = find_status published versions

  unfoldable pub get_version_for_context :
      List (ContentEntryVersion D) → Bool → Option (ContentEntryVersion D)
  unfolding get_draft_version get_published_version
  get_version_for_context versions is_cms =
      if is_cms
      then get_draft_version versions <|> get_published_version versions
      else get_published_version versions
