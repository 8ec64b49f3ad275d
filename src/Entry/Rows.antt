-- ===== src/Entry/Rows.antt =====
-- The version rows of one entry as the database keeps them: in any order, with unique ids and a
-- partial unique index (apps/cms/prisma/schema/contentEntry.prisma and the migration
-- 20260416120000_add_content_entry_versions). The database itself is not modelled: these are the
-- words in which its interface is stated.
use boject_cms.Common.{
  ℕ, ◌+◌, String, ◌==◌, ◌≡◌, Bool, true, false, ◌&&◌, List, [], ◌∷◌, Option, none, some, leb,
  if◌then◌else◌, any,
}
use boject_cms.Entry.Version.{
  ContentStatus, draft, published, changed, same_status, ContentEntryVersion,
}

-- A write to a version: the keys that are present.
pub record VersionPatch {ℓ} (D : Type ℓ) : Type ℓ where
  pub status : ContentStatus
  pub published_at : Option (Option ℕ)
  pub content : Option (D × String)

abbrev pub one_if : Bool → ℕ
one_if true = 1
one_if false = 0

module _ {ℓ} {D : Type ℓ} where
  -- How many rows have a status.
  abbrev pub tally : ContentStatus → List (ContentEntryVersion D) → ℕ
  tally st [] = 0
  tally st (v ∷ vs) = one_if (same_status v.status st) + tally st vs

  abbrev pub has_row : String → List (ContentEntryVersion D) → Bool
  has_row i = any (λ v. v.id == i)

  abbrev pub remove_row : String → List (ContentEntryVersion D) → List (ContentEntryVersion D)
  remove_row i [] = []
  remove_row i (v ∷ vs) = let rest = remove_row i vs in if v.id == i then rest else v ∷ rest

  abbrev pub patched : VersionPatch D → ContentEntryVersion D → ContentEntryVersion D
  patched p v = record v {
    status = p.status;
    published_at = elim p.published_at [ none ↦ v.published_at | some at ↦ at ];
    data_of = elim p.content [ none ↦ v.data_of | some (d, _) ↦ d ];
    entry_title = elim p.content [ none ↦ v.entry_title | some (_, t) ↦ t ];
  }

  abbrev pub patch_row :
      String → VersionPatch D → List (ContentEntryVersion D) → List (ContentEntryVersion D)
  patch_row i p [] = []
  patch_row i p (v ∷ vs) = (if v.id == i then patched p v else v) ∷ patch_row i p vs

  -- The partial unique index: at most one row for each of the three active statuses.
  abbrev pub index_ok : List (ContentEntryVersion D) → Bool
  index_ok vs = leb (tally draft vs) 1 && leb (tally published vs) 1 && leb (tally changed vs) 1

  -- The primary key.
  abbrev pub UniqueIds : List (ContentEntryVersion D) → Type 0
  UniqueIds [] = Unit
  UniqueIds (v ∷ vs) = (has_row v.id vs ≡ false) × UniqueIds vs
