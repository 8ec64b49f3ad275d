-- ===== src/Import/Tests.antt =====
-- Instances at a bundle of two entries, one of which is there.
use boject_cms.Common.{
  ℕ, ◌≡◌, refl, String, ◌==◌, Bool, [], ◌∷◌, map, Option, none, some, if◌then◌else◌,
}
use boject_cms.Import.Plan.{
  BundleEntry, fail, skip, create, skipped, EntryImportSummary, planned, conflict_error,
  plan_entries, plan_entry_import,
}
use boject_cms.Import.Outcome.{entry_of, Tallied, plan_entry_import-planned}

abbrev entry : String → BundleEntry ℕ
entry key = record {
  id = none;
  content_type_id = none;
  content_type_identifier = "Article";
  entry_title = key;
  entry_key = key;
  slug = none;
  versions = 1 ∷ [];
}

abbrev existing : String → String → Option String
existing t k = if k == "old" then some "e1" else none

abbrev is_article : String → Bool
is_article t = t == "Article"

abbrev summary : EntryImportSummary
summary = record { created_count = 1; updated_count = 0; skipped_count = 1 }

skips_old :
    plan_entry_import existing is_article skip (some (entry "new" ∷ entry "old" ∷ []))
    ≡ planned (create (entry "new") ∷ skipped (entry "old") "e1" ∷ []) summary
unfolding plan_entry_import plan_entries
skips_old = refl

fails_on_old :
    plan_entry_import existing is_article fail (some (entry "new" ∷ entry "old" ∷ []))
    ≡ conflict_error "Article" "old"
unfolding plan_entry_import plan_entries
fails_on_old = refl

plan_entry_import-planned_example :
    (map entry_of (create (entry "new") ∷ skipped (entry "old") "e1" ∷ [])
      ≡ entry "new" ∷ entry "old" ∷ [])
    × Tallied existing is_article skip
        (create (entry "new") ∷ skipped (entry "old") "e1" ∷ [])
        summary
plan_entry_import-planned_example =
    plan_entry_import-planned existing is_article skip (entry "new" ∷ entry "old" ∷ [])
      (create (entry "new") ∷ skipped (entry "old") "e1" ∷ []) summary skips_old
