-- ===== src/Import/Outcome.antt =====
-- What a plan of an import holds.
use boject_cms.Common.{
  ◌+◌, ◌≡◌, refl, sym, ap, ◌∙◌, String, ◌==◌, eq_refl, Bool, true, false, ◌&&◌, ◌||◌, not, ◌⊎◌, inl,
  inr, List, [], ◌∷◌, ◌++◌, map, length, all, Option, none, some, if◌then◌else◌, arith, filter,
}
use mathlib.Core.Path.{subst}
use boject_cms.Import.Plan.{
  BundleEntry, OnConflict, fail, skip, replace, EntryImportPlan, create, update, skipped,
  EntryImportSummary, ImportPlanning, planned, reference_error, conflict_error, record_plan,
  classify, plan_of_entry, plan_entries, plan_entry_import, entries_or_empty,
}

abbrev same_id : Option String → String → Bool
same_id none i = false
same_id (some j) i = j == i

abbrev is_missing : Option String → Bool
is_missing none = true
is_missing (some j) = false

abbrev is_replace : OnConflict → Bool
is_replace replace = true
is_replace _ = false

abbrev is_skip_mode : OnConflict → Bool
is_skip_mode skip = true
is_skip_mode _ = false

abbrev is_fail : OnConflict → Bool
is_fail fail = true
is_fail _ = false

module _ {D : Type 0} where
  abbrev pub entry_of : EntryImportPlan D → BundleEntry D
  entry_of (create e) = e
  entry_of (update e i) = e
  entry_of (skipped e i) = e

  abbrev pub is_create : EntryImportPlan D → Bool
  is_create (create e) = true
  is_create _ = false

  abbrev pub is_update : EntryImportPlan D → Bool
  is_update (update e i) = true
  is_update _ = false

  abbrev pub is_skip : EntryImportPlan D → Bool
  is_skip (skipped e i) = true
  is_skip _ = false

  append_assoc :
      (xs : List (BundleEntry D)) (y : BundleEntry D) (zs : List (BundleEntry D))
      → (xs ++ y ∷ []) ++ zs ≡ xs ++ y ∷ zs
  append_assoc [] y zs = refl
  append_assoc (x ∷ xs) y zs = ap (λ ws. x ∷ ws) (append_assoc xs y zs)

  append-nil : (xs : List (BundleEntry D)) → xs ++ [] ≡ xs
  append-nil [] = refl
  append-nil (x ∷ xs) = ap (λ ws. x ∷ ws) (append-nil xs)

  map-snoc :
      (ps : List (EntryImportPlan D)) (p : EntryImportPlan D)
      → map entry_of (ps ++ p ∷ []) ≡ map entry_of ps ++ entry_of p ∷ []
  map-snoc [] p = refl
  map-snoc (q ∷ ps) p = ap (λ ws. entry_of q ∷ ws) (map-snoc ps p)

  count-snoc :
      (t : EntryImportPlan D → Bool) (ps : List (EntryImportPlan D)) (p : EntryImportPlan D)
      → length (filter t (ps ++ p ∷ [])) ≡ length (filter t ps) + (if t p then 1 else 0)
  count-snoc t [] p = ground arith
  count-snoc t (q ∷ ps) p = ground (arith, count-snoc t ps p)

  all-snoc :
      (t : EntryImportPlan D → Bool) (ps : List (EntryImportPlan D)) (p : EntryImportPlan D)
      → all t (ps ++ p ∷ []) ≡ (all t ps && t p)
  all-snoc t [] p = ground arith
  all-snoc t (q ∷ ps) p = ground (arith, all-snoc t ps p)

module _ {D : Type 0} (existing : String → String → Option String) (is_known_type : String → Bool)
    (on_conflict : OnConflict) where
  abbrev held : BundleEntry D → Option String
  held e = existing e.content_type_identifier e.entry_key

  -- A plan that fits what is there: a create has no entry of its key, an update and a skip name it.
  abbrev pub is_right : EntryImportPlan D → Bool
  is_right (create e) = is_known_type e.content_type_identifier && is_missing (held e)
  is_right (update e i) =
      is_known_type e.content_type_identifier && same_id (held e) i && is_replace on_conflict
  is_right (skipped e i) =
      is_known_type e.content_type_identifier && same_id (held e) i && is_skip_mode on_conflict

  abbrev pub Tallied : List (EntryImportPlan D) → EntryImportSummary → Type 0
  Tallied ps s =
      (all is_right ps ≡ true)
      × (s.created_count ≡ length (filter is_create ps))
      × (s.updated_count ≡ length (filter is_update ps))
      × (s.skipped_count ≡ length (filter is_skip ps))

  classify-is_right :
      (e : BundleEntry D) (o : Option String) (c : OnConflict) (p : EntryImportPlan D)
      → held e ≡ o
      → on_conflict ≡ c
      → is_known_type e.content_type_identifier ≡ true
      → classify e o c ≡ some p
      → (is_right p ≡ true) × (entry_of p ≡ e)
  classify-is_right e none c p h m k q =
      let same : create e ≡ p = ground arith in
      subst (λ x. (is_right x ≡ true) × (entry_of x ≡ e)) same (rw (k, h) refl, refl)
  classify-is_right e (some i) fail p h m k q = absurd (ground arith)
  classify-is_right e (some i) skip p h m k q =
      let same : skipped e i ≡ p = ground arith in
      subst (λ x. (is_right x ≡ true) × (entry_of x ≡ e)) same (rw (k, h, eq_refl i, m) refl, refl)
  classify-is_right e (some i) replace p h m k q =
      let same : update e i ≡ p = ground arith in
      subst (λ x. (is_right x ≡ true) × (entry_of x ≡ e)) same (rw (k, h, eq_refl i, m) refl, refl)

  record_plan-Tallied :
      (p : EntryImportPlan D) (ps : List (EntryImportPlan D)) (s : EntryImportSummary)
      → is_right p ≡ true
      → Tallied ps s
      → Tallied (record_plan p (ps, s)).0 (record_plan p (ps, s)).1
  record_plan-Tallied (create e) ps s r t = ground (
    arith,
    all-snoc is_right ps (create e),
    count-snoc is_create ps (create e),
    count-snoc is_update ps (create e),
    count-snoc is_skip ps (create e),
  )
  record_plan-Tallied (update e i) ps s r t = ground (
    arith,
    all-snoc is_right ps (update e i),
    count-snoc is_create ps (update e i),
    count-snoc is_update ps (update e i),
    count-snoc is_skip ps (update e i),
  )
  record_plan-Tallied (skipped e i) ps s r t = ground (
    arith,
    all-snoc is_right ps (skipped e i),
    count-snoc is_create ps (skipped e i),
    count-snoc is_update ps (skipped e i),
    count-snoc is_skip ps (skipped e i),
  )

  record_plan-entries :
      (p : EntryImportPlan D) (ps : List (EntryImportPlan D)) (s : EntryImportSummary)
      → map entry_of (record_plan p (ps, s)).0 ≡ map entry_of ps ++ entry_of p ∷ []
  record_plan-entries (create e) ps s = map-snoc ps (create e)
  record_plan-entries (update e i) ps s = map-snoc ps (update e i)
  record_plan-entries (skipped e i) ps s = map-snoc ps (skipped e i)

  -- What the planner has made of the entries so far, and of those that are left.
  abbrev Made :
      List (EntryImportPlan D)
      → EntryImportSummary
      → List (BundleEntry D)
      → List (EntryImportPlan D)
      → Type 0
  Made ps s es before = (map entry_of ps ≡ map entry_of before ++ es) × Tallied ps s

  plan_entries-planned :
      (es : List (BundleEntry D)) (before ps : List (EntryImportPlan D)) (t s : EntryImportSummary)
      → plan_entries existing is_known_type on_conflict es (before, t) ≡ planned ps s
      → Tallied before t
      → Made ps s es before
  unfolding plan_entries
  plan_entries-planned [] before ps t s h g =
      let same_plans : before ≡ ps = ground arith in
      let same_summary : t ≡ s = ground arith in
      subst (λ x. Made x s [] before) same_plans
        (subst (λ x. Made before x [] before) same_summary
          (sym (append-nil (map entry_of before)), g))
  plan_entries-planned (e ∷ es) before ps t s h g =
      at (is_known_type e.content_type_identifier) refl
        (plan_of_entry existing is_known_type on_conflict e) refl h
        (λ p.
          plan_entries-planned es (record_plan p (before, t)).0 ps (record_plan p (before, t)).1 s)
    where
      at :
          (b : Bool)
          → is_known_type e.content_type_identifier ≡ b
          → (o : Option (EntryImportPlan D))
          → plan_of_entry existing is_known_type on_conflict e ≡ o
          → elim b [
            | false ↦ reference_error e.entry_title e.content_type_identifier
            | true ↦ elim o [
              | none ↦ conflict_error e.content_type_identifier e.entry_key
              | some p ↦
                  plan_entries existing is_known_type on_conflict es (record_plan p (before, t))
            ]
          ]
            ≡ planned ps s
          → ((p : EntryImportPlan D)
              → plan_entries existing is_known_type on_conflict es (record_plan p (before, t))
                ≡ planned ps s
              → Tallied (record_plan p (before, t)).0 (record_plan p (before, t)).1
              → Made ps s es (record_plan p (before, t)).0)
          → Made ps s (e ∷ es) before
      at false k o q h' later = absurd (ground arith)
      at true k none q h' later = absurd (ground arith)
      at true k (some p) q h' later =
          let right = classify-is_right e (held e) on_conflict p refl refl k q in
          let made = later p h' (record_plan-Tallied p before t right.0 g) in
          (
            made.0
                ∙ ap (λ ws. ws ++ es) (record_plan-entries p before t)
                ∙ append_assoc (map entry_of before) (entry_of p) es
                ∙ ap (λ x. map entry_of before ++ x ∷ es) right.1,
            made.1,
          )

  -- Where the planner succeeds, it has one plan for each entry of the bundle, in their order. Every
  -- plan fits what is there: the type of its entry is known; a created entry has no entry of its key,
  -- an updated or skipped one is named by its id, and which of the two it is, is the mode's. The
  -- summary counts the plans of each kind.
  pub plan_entry_import-planned :
      (es : List (BundleEntry D)) (ps : List (EntryImportPlan D)) (s : EntryImportSummary)
      → plan_entry_import existing is_known_type on_conflict (some es) ≡ planned ps s
      → (map entry_of ps ≡ es) × Tallied ps s
  unfolding plan_entry_import
  plan_entry_import-planned es ps s h = plan_entries-planned es [] ps _ s h (refl, refl, refl, refl)

  -- An entry that the planner takes: of a known type, and new unless conflicts are allowed.
  abbrev pub is_importable : BundleEntry D → Bool
  is_importable e =
      is_known_type e.content_type_identifier && (is_missing (held e) || not (is_fail on_conflict))

  abbrev pub is_planned : ImportPlanning D → Bool
  is_planned (planned ps s) = true
  is_planned _ = false

  classify-cases :
      (e : BundleEntry D) (o : Option String) (c : OnConflict)
      → ((classify e o c ≡ none) × ((is_missing o || not (is_fail c)) ≡ false))
        ⊎ ((p : EntryImportPlan D) × (classify e o c ≡ some p)
            × ((is_missing o || not (is_fail c)) ≡ true))
  classify-cases e none c = inr (create e, refl, refl)
  classify-cases e (some i) fail = inl (refl, refl)
  classify-cases e (some i) skip = inr (skipped e i, refl, refl)
  classify-cases e (some i) replace = inr (update e i, refl, refl)

  plan_entries-is_planned :
      (es : List (BundleEntry D)) (acc : List (EntryImportPlan D) × EntryImportSummary)
      → is_planned (plan_entries existing is_known_type on_conflict es acc) ≡ all is_importable es
  unfolding plan_entries
  plan_entries-is_planned [] acc = refl
  plan_entries-is_planned (e ∷ es) acc =
      at (is_known_type e.content_type_identifier)
        (plan_of_entry existing is_known_type on_conflict e)
        (is_missing (held e) || not (is_fail on_conflict)) (classify-cases e (held e) on_conflict)
        (λ p. plan_entries-is_planned es (record_plan p acc))
    where
      at :
          (b : Bool) (o : Option (EntryImportPlan D)) (i : Bool)
          → ((o ≡ none) × (i ≡ false)) ⊎ ((p : EntryImportPlan D) × (o ≡ some p) × (i ≡ true))
          → ((p : EntryImportPlan D)
              → is_planned (plan_entries existing is_known_type on_conflict es (record_plan p acc))
                ≡ all is_importable es)
          → is_planned (elim b [
            | false ↦ reference_error e.entry_title e.content_type_identifier
            | true ↦ elim o [
              | none ↦ conflict_error e.content_type_identifier e.entry_key
              | some p ↦ plan_entries existing is_known_type on_conflict es (record_plan p acc)
            ]
          ])
            ≡ ((b && i) && all is_importable es)
      at false o i c later = refl
      at true none i (inl c) later = rw c.1 refl
      at true none i (inr c) later = absurd (ground (arith, c.1))
      at true (some p) i (inl c) later = absurd (ground (arith, c.0))
      at true (some p) i (inr c) later = rw c.2 (later p)

  -- The planner succeeds exactly where every entry of the bundle is of a known type and, in the mode
  -- that fails on conflicts, has a key that no entry of its type has. A bundle without a list of
  -- entries has none.
  pub plan_entry_import-is_importable :
      (entries : Option (List (BundleEntry D)))
      → is_planned (plan_entry_import existing is_known_type on_conflict entries)
        ≡ all is_importable (entries_or_empty entries)
  unfolding plan_entry_import
  plan_entry_import-is_importable entries = plan_entries-is_planned (entries_or_empty entries) _
