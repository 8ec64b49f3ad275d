-- ===== src/Query/Editing.antt =====
-- Editing committed filters: replacement in place, and removal while an edit is open.
use mathlib.Core.Option
use boject_cms.Common.{
  ℕ, zero, suc, ◌+◌, ◌<◌, String, ◌==◌, eq_iff, ◌≡◌, refl, ap, ◌∙◌, ◌≢◌, List, [], ◌∷◌, Option,
  none, some, arith, length, get_elem?, set, erase_idx, find?, Option-cases, Bool-cases, ltb, inl,
  inr,
}
use boject_cms.Query.Types.{QueryField, QueryContentType, SearchFilter}
use boject_cms.Query.SystemFields.{get_system_field, to_query_field, resolve_query_field}
use boject_cms.Query.Machine.{
  BuilderState, DraftFilter, value_segment, commit_value, remove_filter_at, edit_filter, reduce,
  find_field, shifted,
}

module _ {ℓ} {A : Type ℓ} where
  get_elem?-erase_idx_lt :
      (xs : List A) (i e : ℕ) → e < i → get_elem? (erase_idx xs i) e ≡ get_elem? xs e
  get_elem?-erase_idx_lt [] i e h = refl
  get_elem?-erase_idx_lt (x ∷ xs) zero e h = absurd (omega arith)
  get_elem?-erase_idx_lt (x ∷ xs) (suc i) zero h = refl
  get_elem?-erase_idx_lt (x ∷ xs) (suc i) (suc e) h = get_elem?-erase_idx_lt xs i e (omega arith)

  get_elem?-erase_idx_gt :
      (xs : List A) (i e : ℕ) → i < suc e → get_elem? (erase_idx xs i) e ≡ get_elem? xs (suc e)
  get_elem?-erase_idx_gt [] i e h = refl
  get_elem?-erase_idx_gt (x ∷ xs) zero e h = refl
  get_elem?-erase_idx_gt (x ∷ []) (suc i) zero h = absurd (omega arith)
  get_elem?-erase_idx_gt (x ∷ y ∷ xs) (suc i) zero h = absurd (omega arith)
  get_elem?-erase_idx_gt (x ∷ xs) (suc i) (suc e) h = get_elem?-erase_idx_gt xs i e (omega arith)

  set-get_elem? : (xs : List A) (i : ℕ) (x : A) → get_elem? xs i ≡ some x → set xs i x ≡ xs
  set-get_elem? [] i x h = refl
  set-get_elem? (y ∷ xs) zero x h = ground arith
  set-get_elem? (y ∷ xs) (suc i) x h = ap (◌∷◌ y) (set-get_elem? xs i x h)

  length-set : (xs : List A) (i : ℕ) (x : A) → length (set xs i x) ≡ length xs
  length-set [] i x = refl
  length-set (y ∷ xs) zero x = refl
  length-set (y ∷ xs) (suc i) x = ap suc (length-set xs i x)

  length-erase_idx : (xs : List A) (i : ℕ) → i < length xs → length (erase_idx xs i) + 1 ≡ length xs
  length-erase_idx [] i h = absurd (omega arith)
  length-erase_idx (y ∷ xs) zero h = omega arith
  length-erase_idx (y ∷ xs) (suc i) h = omega (arith, length-erase_idx xs i (omega arith))

  get_elem?-set_gt :
      (xs : List A) (i j : ℕ) (x : A) → i < j → get_elem? (set xs i x) j ≡ get_elem? xs j
  get_elem?-set_gt [] i j x h = refl
  get_elem?-set_gt (y ∷ xs) zero zero x h = absurd (omega arith)
  get_elem?-set_gt (y ∷ xs) zero (suc j) x h = refl
  get_elem?-set_gt (y ∷ xs) (suc i) zero x h = absurd (omega arith)
  get_elem?-set_gt (y ∷ xs) (suc i) (suc j) x h = get_elem?-set_gt xs i j x (omega arith)

  get_elem?-set_self :
      (xs : List A) (i : ℕ) (x : A) → i < length xs → get_elem? (set xs i x) i ≡ some x
  get_elem?-set_self [] i x h = absurd (omega arith)
  get_elem?-set_self (y ∷ xs) zero x h = refl
  get_elem?-set_self (y ∷ xs) (suc i) x h = get_elem?-set_self xs i x (omega arith)

shifted_self : (i : ℕ) → shifted (some i) i ≡ some i
shifted_self i = ground arith

shifted_lem :
    (fs : List SearchFilter) (index e : ℕ) (f : SearchFilter)
    → index ≢ e
    → get_elem? fs e ≡ some f
    → (e' : ℕ) × (shifted (some e) index ≡ some e') × (get_elem? (erase_idx fs index) e' ≡ some f)
shifted_lem fs index zero f apart found =
    (zero, ground arith, get_elem?-erase_idx_lt fs index zero (omega arith) ∙ found)
shifted_lem fs index (suc e) f apart found = elim (Bool-cases (ltb index (suc e))) [
  | inl before ↦
      let le : index < suc e = ground arith in
      (e, rw before (ap some (omega arith)), get_elem?-erase_idx_gt fs index e le ∙ found)
  | inr behind ↦
      let lt : suc e < index = ground arith in
      (suc e, rw behind, get_elem?-erase_idx_lt fs index (suc e) lt ∙ found)
]

-- While a filter is being edited, the removal of any other filter keeps the edit on that filter.
pub remove_filter-editing :
    (s : BuilderState) (index e : ℕ) (f : SearchFilter)
    → s.editing_index ≡ some e
    → index ≢ e
    → get_elem? s.query.filters e ≡ some f
    → (e' : ℕ) × ((reduce s (remove_filter_at index)).editing_index ≡ some e')
      × (get_elem? (reduce s (remove_filter_at index)).query.filters e' ≡ some f)
unfolding reduce
remove_filter-editing s index e f open_edit apart found =
    rw open_edit (shifted_lem s.query.filters index e f apart found)

-- The filter that a draft commits.
abbrev pub filter_of : DraftFilter → SearchFilter
filter_of d = record { field = d.field.identifier; op = d.op; value = d.value }

filters_after :
    (s : BuilderState) (i : ℕ) (d : DraftFilter)
    → s.editing_index ≡ some i
    → s.draft ≡ some d
    → (reduce (reduce s (remove_filter_at i)) commit_value).query.filters
      ≡ set (erase_idx s.query.filters i) i (filter_of d)
unfolding reduce
filters_after s i d open_edit drafted = rw (open_edit, drafted, shifted_self i)

-- Removing the filter that is being edited, when another follows it, does not end the edit:
-- committing the draft puts it in the place of the follower, so that the list is one shorter than
-- before the removal, and the filters behind the follower move up.
pub remove_filter-commit_clobbers :
    (s : BuilderState) (i : ℕ) (d : DraftFilter)
    → s.editing_index ≡ some i
    → s.draft ≡ some d
    → suc i < length s.query.filters
    → (get_elem? (reduce (reduce s (remove_filter_at i)) commit_value).query.filters i
        ≡ some (filter_of d))
      × (length (reduce (reduce s (remove_filter_at i)) commit_value).query.filters + 1
          ≡ length s.query.filters)
      × ((j : ℕ)
          → i < j
          → get_elem? (reduce (reduce s (remove_filter_at i)) commit_value).query.filters j
            ≡ get_elem? s.query.filters (suc j))
unfolding reduce
remove_filter-commit_clobbers s i d open_edit drafted h =
    let fs = s.query.filters in
    let same = filters_after s i d open_edit drafted in
    let shorter = length-erase_idx fs i (omega arith) in
    (
      rw same (get_elem?-set_self (erase_idx fs i) i (filter_of d) (omega arith)),
      rw same (rw (length-set (erase_idx fs i) i (filter_of d)) shorter),
      λ j lt. rw same (
          get_elem?-set_gt (erase_idx fs i) i j (filter_of d) lt
          ∙ get_elem?-erase_idx_gt fs i j (omega arith)),
    )

find-identifier :
    (fs : List QueryField) (i : String) (f : QueryField)
    → find? (λ g. g.identifier == i) fs ≡ some f
    → f.identifier ≡ i
find-identifier [] i f h = cc
find-identifier (g ∷ fs) i f h = ground (arith, eq_iff g.identifier i, find-identifier fs i f)

system-identifier :
    (i : String) (f : QueryField)
    → Option.map to_query_field (get_system_field i) ≡ some f
    → f.identifier ≡ i
unfolding get_system_field to_query_field
system-identifier i f h = ground (arith, eq_iff "$status" i, eq_iff "$id" i, eq_iff "$entryKey" i)

-- Whatever field the palette resolves, its own or a system field, has the identifier asked for.
resolve_query_field-identifier :
    (ct : Option QueryContentType) (i : String) (f : QueryField)
    → resolve_query_field ct i ≡ some f
    → f.identifier ≡ i
unfolding resolve_query_field
resolve_query_field-identifier none i f h = system-identifier i f h
resolve_query_field-identifier (some ct) i f h =
    elim (Option-cases (find? (λ (g : QueryField). g.identifier == i) ct.fields)) [
      | inl missing ↦ system-identifier i f (rw missing at h)
      | inr (g, own) ↦
          let same : g ≡ f = ground arith in rw (← same) (find-identifier ct.fields i g own)
    ]

-- Opening a committed filter whose field resolves and committing it again leaves the filters as
-- they were.
pub edit_filter-commit_value :
    (s : BuilderState) (i : ℕ) (f : SearchFilter) (qf : QueryField)
    → get_elem? s.query.filters i ≡ some f
    → find_field s f.field ≡ some qf
    → (reduce (reduce s (edit_filter i value_segment)) commit_value).query.filters ≡ s.query.filters
unfolding reduce find_field
edit_filter-commit_value s i f qf listed found =
    let named = resolve_query_field-identifier _ f.field qf found in
    ground (arith, set-get_elem? s.query.filters i f)
