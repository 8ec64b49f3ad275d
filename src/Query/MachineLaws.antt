-- ===== src/Query/MachineLaws.antt =====
-- The invariant of the query builder.
use boject_cms.Common.{◌≡◌, true, false, none, some, arith, ◌≢◌, truthy}
use boject_cms.Query.Machine.{
  content_type, field, operator, value, BuilderState, InitOptions, init_state, Action,
  set_free_text, pick_content_type, remove_content_type, pick_field, pick_operator, set_value,
  toggle_value, commit_value, remove_filter_at, edit_filter, edit_draft, commit_free_text,
  edit_free_text, remove_free_text, backspace, run, reduce,
}

-- A committed filter is edited only through a draft; the operator and value steps have a draft; and
-- the resting steps agree with the scope of the query.
pub record IsConsistent (s : BuilderState) : Type 0 where
  pub editing_drafts : s.draft ≡ none → s.editing_index ≡ none
  pub operator_drafts : s.draft ≡ none → s.step ≢ operator
  pub value_drafts : s.draft ≡ none → s.step ≢ value
  pub field_scoped : s.step ≡ field → truthy s.query.content_type ≡ true
  pub type_unscoped : s.step ≡ content_type → truthy s.query.content_type ≡ false

-- The content types that are picked have an identifier.
abbrev pub IsNamed : Action → Type 0
IsNamed (pick_content_type ct) = truthy (some (ct.identifier)) ≡ true
IsNamed _ = Unit

-- Whatever its options, the builder starts in a consistent state.
init_state-IsConsistent : (opts : InitOptions) → IsConsistent (init_state opts)
unfolding init_state
init_state-IsConsistent opts = ground arith

-- Every action, in every consistent state, leaves a consistent state; a content type that it picks
-- has an identifier that is not empty.
pub reduce-IsConsistent :
    (s : BuilderState) (a : Action) → IsNamed a → IsConsistent s → IsConsistent (reduce s a)
unfolding reduce
reduce-IsConsistent s (set_free_text q) n c = ground arith
reduce-IsConsistent s (pick_content_type ct) n c = ground arith
reduce-IsConsistent s remove_content_type n c = ground arith
reduce-IsConsistent s (pick_field f) n c = ground arith
reduce-IsConsistent s (pick_operator op) n c = ground arith
reduce-IsConsistent s (set_value v) n c = ground arith
reduce-IsConsistent s (toggle_value v) n c = ground arith
reduce-IsConsistent s commit_value n c = ground arith
reduce-IsConsistent s (remove_filter_at i) n c = ground arith
reduce-IsConsistent s (edit_filter i seg) n c = ground arith
reduce-IsConsistent s edit_draft n c = ground arith
reduce-IsConsistent s commit_free_text n c = ground arith
reduce-IsConsistent s edit_free_text n c = ground arith
reduce-IsConsistent s remove_free_text n c = ground arith
reduce-IsConsistent s backspace n c = ground arith
reduce-IsConsistent s run n c = ground arith
