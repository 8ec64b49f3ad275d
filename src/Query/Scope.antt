-- ===== src/Query/Scope.antt =====
-- What the actions of the query builder leave alone: the scope, the intent, the free text, the list
-- of values.
use boject_cms.Common.{
  String, ◌==◌, eq_refl, ◌≡◌, refl, ◌≢◌, ◌⊎◌, inl, inr, Bool, true, false, ◌||◌, not, List, [], ◌∷◌,
  ◌++◌, none, arith, any, filter, Bool-cases,
}
use boject_cms.Query.Machine.{
  BuilderState, Action, set_free_text, pick_content_type, remove_content_type, pick_field,
  pick_operator, edit_filter, commit_free_text, edit_free_text, run, reduce, toggle, non_empty,
  text_or_empty,
}

abbrev pub picks_type : Action → Bool
picks_type (pick_content_type _) = true
picks_type _ = false

-- In a locked palette, an action other than picking a content type changes neither the scope nor the
-- lock.
pub reduce-locked :
    (s : BuilderState) (a : Action)
    → s.locked ≡ true
    → picks_type a ≡ false
    → ((reduce s a).query.content_type ≡ s.query.content_type) × ((reduce s a).locked ≡ true)
unfolding reduce
reduce-locked s (set_free_text q) l p = ground arith
reduce-locked s (pick_field f) l p = ground arith
reduce-locked s (pick_operator op) l p = ground arith
reduce-locked s (edit_filter i seg) l p = ground arith
reduce-locked s a l p = ground arith

-- The host is asked to act only by a run, or by the removal of a locked content type.
pub reduce-intent :
    (s : BuilderState) (a : Action)
    → (reduce s a).intent ≢ none
    → (a ≡ run) ⊎ ((a ≡ remove_content_type) × (s.locked ≡ true))
unfolding reduce
reduce-intent s (set_free_text q) h = ground arith
reduce-intent s a h = ground arith

text_or_empty-non_empty : (t : String) → text_or_empty (non_empty t) ≡ t
text_or_empty-non_empty String.[] = refl
text_or_empty-non_empty (String.◌∷◌ c t) = refl

-- Committing the text and editing it again gives the text back, and leaves no text in the query.
commit_free_text-edit_free_text :
    (s : BuilderState)
    → ((reduce (reduce s commit_free_text) edit_free_text).text ≡ s.text)
      × ((reduce (reduce s commit_free_text) edit_free_text).query.q ≡ none)
unfolding reduce
commit_free_text-edit_free_text s = (text_or_empty-non_empty s.text, refl)

any-append :
    {A : Type 0} (p : A → Bool) (xs ys : List A) → any p (xs ++ ys) ≡ (any p xs || any p ys)
any-append p [] ys = refl
any-append p (x ∷ xs) ys = ground (arith, any-append p xs ys)

any-filter_not :
    (v : String) (ss : List String) → any (λ s. s == v) (filter (λ s. not (s == v)) ss) ≡ false
any-filter_not v [] = refl
any-filter_not v (s ∷ ss) = ground (arith, any-filter_not v ss)

-- Toggling a value puts it in exactly when it was not there.
any-toggle :
    (ss : List String) (v : String) → any (λ s. s == v) (toggle ss v) ≡ not (any (λ s. s == v) ss)
unfolding toggle
any-toggle ss v = elim (Bool-cases (any (λ s. s == v) ss)) [
  | inl there ↦ rw there (any-filter_not v ss)
  | inr absent ↦ rw absent (rw (any-append (λ s. s == v) ss (v ∷ []), absent) (rw (eq_refl v)))
]

filter_not-absent :
    (v : String) (ss : List String)
    → any (λ s. s == v) ss ≡ false
    → filter (λ s. not (s == v)) (ss ++ v ∷ []) ≡ ss
filter_not-absent v [] h = rw (eq_refl v)
filter_not-absent v (s ∷ ss) h = ground (arith, filter_not-absent v ss)

-- Toggling a value that is not there twice gives the list back, in its order.
toggle-toggle :
    (ss : List String) (v : String) → any (λ s. s == v) ss ≡ false → toggle (toggle ss v) v ≡ ss
unfolding toggle
toggle-toggle ss v absent = rw absent (
    rw (any-append (λ s. s == v) ss (v ∷ []), absent)
      (rw (eq_refl v) (filter_not-absent v ss absent)))
