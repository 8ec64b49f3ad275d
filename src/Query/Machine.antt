-- ===== src/Query/Machine.antt =====
-- apps/cms/utils/queryBuilder/machine.ts: the state of the query builder and its reducer.
use boject_cms.Common.{
  ℕ, String, ◌==◌, ◌-◌, ltb, Bool, true, false, ◌&&◌, not, List, [], ◌∷◌, ◌++◌, Option, none, some,
  find?, filter, any, length, get_elem?, set, if◌then◌else◌, truthy,
}
use boject_cms.Query.Types.{
  Value, null, undefined, strs, text_of, QueryField, QueryContentType, SearchFilter, SearchQuery,
  add_filter, remove_filter,
}
use boject_cms.Query.Operators.{
  Arity, zero, operator_arity, available_operators, default_operator, first_or, value_input_kind,
  ValueInputKind, text_input, number_input,
}
use boject_cms.Query.SystemFields.{is_system_field_id, resolve_query_field}

pub data Step : Type 0 where
  content_type field operator value : Step

pub record DraftFilter : Type 0 where
  pub field : QueryField
  pub op : String
  pub value : Value

pub data Intent : Type 0 where
  run_now : Intent
  broaden : Option String → Intent

pub record BuilderState : Type 0 where
  pub content_types : List QueryContentType
  pub locked : Bool
  pub rich : Bool
  pub multi_value : Bool
  pub range : Bool
  pub step : Step
  pub query : SearchQuery
  pub draft : Option DraftFilter
  pub editing_index : Option ℕ
  pub text : String
  pub intent : Option Intent

-- The options of `initState`; a flag that is left out is false.
pub record InitOptions : Type 0 where
  pub content_types : List QueryContentType
  pub locked_content_type : Option QueryContentType
  pub rich : Bool
  pub multi_value : Bool
  pub range : Bool
  pub initial_query : Option SearchQuery

-- The field step where the query is scoped, the content-type step where it is not.
abbrev pub resting_step : SearchQuery → Step
resting_step q = if truthy q.content_type then field else content_type

abbrev pub is_locked : Option QueryContentType → Bool
is_locked none = false
is_locked (some _) = true

abbrev start_query : InitOptions → SearchQuery
start_query opts = elim opts.initial_query [
  | some q ↦ q
  | none ↦ record {
    content_type = elim opts.locked_content_type [ none ↦ none | some ct ↦ some (ct.identifier) ];
    q = none;
    filters = [];
  }
]

unfoldable pub init_state : InitOptions → BuilderState
init_state opts =
    let query = start_query opts in
    record {
      content_types = opts.content_types;
      locked = is_locked opts.locked_content_type;
      rich = opts.rich;
      multi_value = opts.multi_value;
      range = opts.range;
      step = resting_step query;
      query = query;
      draft = none;
      editing_index = none;
      text = "";
      intent = none;
    }

-- `c.identifier === contentType`, false where no content type is chosen.
abbrev is_type : Option String → QueryContentType → Bool
is_type none c = false
is_type (some i) c = c.identifier == i

unfoldable pub find_field : BuilderState → String → Option QueryField
find_field s identifier =
    resolve_query_field (find? (is_type s.query.content_type) s.content_types) identifier

-- The filters after a commit: replaced in place when one is edited, appended otherwise.
unfoldable pub commit_filters : SearchQuery → Option ℕ → SearchFilter → SearchQuery
unfolding add_filter
commit_filters q none f = add_filter q f
commit_filters q (some i) f = record q { filters = set q.filters i f }

unfoldable pub commit_draft_filter : BuilderState → SearchFilter → BuilderState
unfolding commit_filters
commit_draft_filter s f = record s {
  query = commit_filters s.query s.editing_index f;
  draft = none;
  editing_index = none;
  text = "";
  step = resting_step s.query;
}

pub data Segment : Type 0 where
  field_segment operator_segment value_segment : Segment

pub data Action : Type 0 where
  set_free_text : String → Action
  pick_content_type : QueryContentType → Action
  remove_content_type : Action
  pick_field : QueryField → Action
  pick_operator : String → Action
  set_value : Value → Action
  toggle_value : String → Action
  commit_value : Action
  remove_filter_at : ℕ → Action
  edit_filter : ℕ → Segment → Action
  edit_draft : Action
  commit_free_text edit_free_text remove_free_text backspace run : Action

-- The text that a value step starts with: only a typed value is offered again.
abbrev pub prefill : ValueInputKind → Value → String
prefill text_input v = text_of v
prefill number_input v = text_of v
prefill _ v = ""

abbrev pub is_zero : Arity → Bool
is_zero zero = true
is_zero _ = false

unfoldable pub pick_field_state : BuilderState → QueryField → BuilderState
pick_field_state s f =
    let ops = available_operators f.type (record {
      rich = s.rich;
      multi_value = s.multi_value;
      range = s.range;
      nullary = not (is_system_field_id f.identifier);
    }) in
    record s {
      draft =
          some
            (record { field = f; op = (first_or ops (default_operator f.type)).id; value = null });
      text = "";
      step = if ltb (length ops) 2 then value else operator;
    }

unfoldable pub pick_operator_state : BuilderState → DraftFilter → String → BuilderState
unfolding commit_draft_filter
pick_operator_state s d op =
    if is_zero (operator_arity op)
    then commit_draft_filter s (record { field = d.field.identifier; op = op; value = undefined })
    else record s {
      draft = some (record d { op = op });
      step = value;
      text = prefill (value_input_kind d.field.type op) d.value;
    }

-- `Array.isArray(value) ? value : []`.
abbrev pub as_list : Value → List String
as_list (strs ss) = ss
as_list _ = []

-- Drops a value that the list includes, appends one that it does not.
unfoldable pub toggle : List String → String → List String
toggle ss v = if any (λ s. s == v) ss then filter (λ s. not (s == v)) ss else ss ++ v ∷ []

unfoldable pub edit_filter_state :
    BuilderState → ℕ → Segment → SearchFilter → QueryField → BuilderState
edit_filter_state s index operator_segment f qf = record s {
  draft = some (record { field = qf; op = f.op; value = f.value });
  editing_index = some index;
  step = operator;
  text = "";
}
edit_filter_state s index _ f qf = record s {
  draft = some (record { field = qf; op = f.op; value = f.value });
  editing_index = some index;
  step = value;
  text = prefill (value_input_kind qf.type f.op) f.value;
}

-- The index of the same filter after one is removed.
abbrev pub shifted : Option ℕ → ℕ → Option ℕ
shifted none index = none
shifted (some i) index = if ltb index i then some (i - 1) else some i

abbrev pub is_empty_text : String → Bool
is_empty_text String.[] = true
is_empty_text (String.◌∷◌ _ _) = false

-- `s.text || undefined`.
abbrev pub non_empty : String → Option String
non_empty t = if is_empty_text t then none else some t

abbrev pub text_or_empty : Option String → String
text_or_empty none = ""
text_or_empty (some t) = t

unfoldable pub backspace_state : BuilderState → Option DraftFilter → BuilderState
unfolding remove_filter
backspace_state s (some d) =
    if is_empty_text s.text
    then record s { draft = none; editing_index = none; step = resting_step s.query }
    else s
backspace_state s none =
    if is_empty_text s.text && truthy s.query.q
    then record s { query = record (s.query) { q = none } }
    else if is_empty_text s.text && ltb 0 (length s.query.filters)
    then record s { query = remove_filter s.query (length s.query.filters - 1) }
    else s

abbrev with_draft : BuilderState → (DraftFilter → BuilderState) → BuilderState
with_draft s f = elim s.draft [ none ↦ s | some d ↦ f d ]

-- The `switch` of `reduce`, on the state without its intent.
dispatch : BuilderState → Action → BuilderState
unfolding commit_draft_filter pick_field_state pick_operator_state toggle find_field
    edit_filter_state backspace_state remove_filter
dispatch s (set_free_text q) = record s { text = q }
dispatch s (pick_content_type ct) = record s {
  step = field;
  text = "";
  draft = none;
  editing_index = none;
  query = record (s.query) { content_type = some (ct.identifier) };
}
dispatch s remove_content_type =
    if s.locked then record s { intent = some (broaden s.query.q) } else record s {
      step = content_type;
      draft = none;
      editing_index = none;
      text = "";
      query = record { content_type = none; q = s.query.q; filters = [] };
    }
dispatch s (pick_field f) = pick_field_state s f
dispatch s (pick_operator op) = with_draft s (λ d. pick_operator_state s d op)
dispatch s (set_value v) =
    with_draft s (λ d. record s { draft = some (record d { value = v }); text = text_of v })
dispatch s (toggle_value v) =
    with_draft s
      (λ d. record s { draft = some (record d { value = strs (toggle (as_list d.value) v) }) })
dispatch s commit_value =
    with_draft s (λ d.
      commit_draft_filter s (record { field = d.field.identifier; op = d.op; value = d.value }))
dispatch s (remove_filter_at index) = record s {
  query = remove_filter s.query index;
  editing_index = shifted s.editing_index index;
}
dispatch s (edit_filter index segment) = elim (get_elem? s.query.filters index) [
  | none ↦ s
  | some f ↦ elim (find_field s f.field) [
    | none ↦ s
    | some qf ↦ edit_filter_state s index segment f qf
  ]
]
dispatch s edit_draft = with_draft s (λ d. record s { step = operator; text = "" })
dispatch s commit_free_text = record s {
  text = "";
  query = record (s.query) { q = non_empty s.text };
}
dispatch s edit_free_text = record s {
  text = text_or_empty s.query.q;
  query = record (s.query) { q = none };
  step = resting_step s.query;
}
dispatch s remove_free_text = record s { query = record (s.query) { q = none } }
dispatch s backspace = backspace_state s s.draft
dispatch s run = record s { intent = some run_now }

unfoldable pub reduce : BuilderState → Action → BuilderState
unfolding dispatch
reduce prev action = dispatch (record prev { intent = none }) action
