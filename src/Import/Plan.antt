-- ===== src/Import/Plan.antt =====
-- apps/cms/scripts/content-bundle/planEntryImport.ts, with the types of types.ts: the planner of an
-- entry import. A map is a function that gives what the map holds; the versions of an entry are any
-- data.
use boject_cms.Common.{ℕ, suc, String, Bool, true, false, List, [], ◌∷◌, ◌++◌, Option, none, some}

pub record BundleEntry (D : Type 0) : Type 0 where
  pub id : Option String
  pub content_type_id : Option String
  pub content_type_identifier : String
  pub entry_title : String
  pub entry_key : String
  pub slug : Option String
  pub versions : List D

pub data OnConflict : Type 0 where
  fail skip replace : OnConflict

pub data EntryImportPlan (D : Type 0) : Type 0 where
  create : BundleEntry D → EntryImportPlan D
  update skipped : BundleEntry D → String → EntryImportPlan D

pub record EntryImportSummary : Type 0 where
  pub created_count : ℕ
  pub updated_count : ℕ
  pub skipped_count : ℕ

-- The plans with their summary, or what the planner throws.
pub data ImportPlanning (D : Type 0) : Type 0 where
  planned : List (EntryImportPlan D) → EntryImportSummary → ImportPlanning D
  reference_error : String → String → ImportPlanning D
  conflict_error : String → String → ImportPlanning D

module _ {D : Type 0} where
  abbrev pub record_plan :
      EntryImportPlan D
      → List (EntryImportPlan D) × EntryImportSummary
      → List (EntryImportPlan D) × EntryImportSummary
  record_plan (create e) (ps, s) =
      (ps ++ create e ∷ [], record s { created_count = suc s.created_count })
  record_plan (update e i) (ps, s) =
      (ps ++ update e i ∷ [], record s { updated_count = suc s.updated_count })
  record_plan (skipped e i) (ps, s) =
      (ps ++ skipped e i ∷ [], record s { skipped_count = suc s.skipped_count })

  -- An entry of a known type, with the id of the entry that has its key.
  abbrev pub classify : BundleEntry D → Option String → OnConflict → Option (EntryImportPlan D)
  classify e none c = some (create e)
  classify e (some i) fail = none
  classify e (some i) skip = some (skipped e i)
  classify e (some i) replace = some (update e i)

  abbrev pub entries_or_empty : Option (List (BundleEntry D)) → List (BundleEntry D)
  entries_or_empty none = []
  entries_or_empty (some es) = es

module _ {D : Type 0} (existing : String → String → Option String) (is_known_type : String → Bool)
    (on_conflict : OnConflict) where
  abbrev pub plan_of_entry : BundleEntry D → Option (EntryImportPlan D)
  plan_of_entry e = classify e (existing e.content_type_identifier e.entry_key) on_conflict

  unfoldable pub plan_entries :
      List (BundleEntry D) → List (EntryImportPlan D) × EntryImportSummary → ImportPlanning D
  plan_entries [] acc = planned acc.0 acc.1
  plan_entries (e ∷ es) acc = elim (is_known_type e.content_type_identifier) [
    | false ↦ reference_error e.entry_title e.content_type_identifier
    | true ↦ elim (plan_of_entry e) [
      | none ↦ conflict_error e.content_type_identifier e.entry_key
      | some p ↦ plan_entries es (record_plan p acc)
    ]
  ]

  unfoldable pub plan_entry_import : Option (List (BundleEntry D)) → ImportPlanning D
  plan_entry_import entries =
      plan_entries (entries_or_empty entries)
        ([], record { created_count = 0; updated_count = 0; skipped_count = 0 })
