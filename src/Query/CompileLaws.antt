-- ===== src/Query/CompileLaws.antt =====
-- Serialising a filter and parsing it again.
use Prim.Native.Char.{code}
use Prim.Native.String
use text.Mathlib.TextLemmas.{nil-append, cons-append}
use boject_cms.Common.{
  ℕ, String, ◌==◌, eq_iff, eqb, ◌≡◌, refl, sym, ap, ◌∙◌, Bool, true, false, ◌&&◌, ◌||◌, not, List,
  [], ◌∷◌, map, Option, none, some, all, length, length-map, ltb, if◌then◌else◌, arith, truthy,
}
use boject_cms.FieldType.{field_types}
use boject_cms.Query.Types.{
  Value, undefined, str, strs, text_of, join_comma, SearchFilter, SearchQuery,
}
use boject_cms.Query.Operators.{
  Operator, Arity, zero, one, two, many, operator_arity, is_operator_id, all_operators,
}
use boject_cms.Query.OperatorLaws.{all_at}
use boject_cms.Query.Machine.{is_empty_text}
use boject_cms.Query.Compile.{
  split_colon, split_comma, serialize_filter, value_for, parse_rest, parse_token, parse_filter,
  compile_query, SearchParams, RouteQuery, raw_filters, route_to_search_query, is_search_mode,
  if_truthy,
}

abbrev pub has_char : ℕ → String → Bool
has_char k String.[] = false
has_char k (String.◌∷◌ c s) = eqb (code c) k || has_char k s

-- The parts of a name before and behind its first colon.
split_colon-append :
    (a b : String)
    → has_char b':' a ≡ false
    → split_colon (String.◌++◌ a (String.◌++◌ ":" b)) ≡ some (a, b)
unfolding split_colon
split_colon-append String.[] b h = rw (nil-append, cons-append, nil-append)
split_colon-append (String.◌∷◌ c a) b h =
    rw (cons-append, split_colon-append a b (ground arith)) (ground arith)

split_comma-char : (s : String) → has_char b',' s ≡ false → split_comma s ≡ s ∷ []
unfolding split_comma
split_comma-char String.[] h = refl
split_comma-char (String.◌∷◌ c s) h = rw (split_comma-char s (ground arith)) (ground arith)

split_comma-append :
    (a b : String)
    → has_char b',' a ≡ false
    → split_comma (String.◌++◌ a (String.◌++◌ "," b)) ≡ a ∷ split_comma b
unfolding split_comma
split_comma-append String.[] b h = rw (nil-append, cons-append, nil-append)
split_comma-append (String.◌∷◌ c a) b h =
    rw (cons-append, split_comma-append a b (ground arith)) (ground arith)

-- A list of names without commas.
abbrev pub Plain : List String → Type 0
Plain [] = Unit
Plain (s ∷ ss) = (has_char b',' s ≡ false) × Plain ss

split_comma-join_comma :
    (s : String) (ss : List String) → Plain (s ∷ ss) → split_comma (join_comma (s ∷ ss)) ≡ s ∷ ss
split_comma-join_comma s [] (h, _) = split_comma-char s h
split_comma-join_comma s (t ∷ ss) (h, hs) =
    rw (split_comma-append s (join_comma (t ∷ ss)) h, split_comma-join_comma t ss hs)

-- The id of an operator is not empty and has no colon.
abbrev is_word : Operator → Bool
is_word o = not (has_char b':' o.id) && not (is_empty_text o.id)

operators_are_words : all is_word (all_operators field_types) ≡ true
operators_are_words = refl

is_operator_id-word :
    (op : String)
    → is_operator_id op ≡ true
    → (has_char b':' op ≡ false) × (is_empty_text op ≡ false)
unfolding is_operator_id
is_operator_id-word op h =
    let (o, word, named) =
      all_at is_word (λ o. o.id == op) (all_operators field_types) operators_are_words h in
    rw (← (eq_iff o.id op).0 named) (ground arith)

-- A value of the shape that an operator takes: none, a text, or a list of texts without commas.
abbrev pub HasShape : Arity → Value → Type 0
HasShape zero v = v ≡ undefined
HasShape one v = (s : String) × (v ≡ str s)
HasShape two v = (s : String) × (ss : List String) × Plain (s ∷ ss) × (v ≡ strs (s ∷ ss))
HasShape many v = (s : String) × (ss : List String) × Plain (s ∷ ss) × (v ≡ strs (s ∷ ss))

value_for-text_of : (a : Arity) (v : Value) → HasShape a v → value_for a (text_of v) ≡ v
value_for-text_of zero v h = sym h
value_for-text_of one v (s, e) = rw e refl
value_for-text_of two v (s, ss, plain, e) = rw e (ap strs (split_comma-join_comma s ss plain))
value_for-text_of many v (s, ss, plain, e) = rw e (ap strs (split_comma-join_comma s ss plain))

-- A filter that the grammar of the URL can carry: no colon in the field, a registered operator,
-- and a value of the operator's shape.
pub record IsPortable (f : SearchFilter) : Type 0 where
  pub no_colon : has_char b':' f.field ≡ false
  pub known : is_operator_id f.op ≡ true
  pub shaped : HasShape (operator_arity f.op) f.value

-- A filter whose field has no colon, whose operator is registered, and whose value has the shape that
-- the operator takes (none, a text, or a list of at least one text without commas) comes back from
-- its URL token unchanged.
pub parse_filter-serialize_filter :
    (f : SearchFilter) → IsPortable f → parse_filter (serialize_filter f) ≡ f
unfolding parse_filter serialize_filter parse_token parse_rest
parse_filter-serialize_filter f p =
    let (no_colon, named) = is_operator_id-word f.op p.known in
    rw
      (
        split_colon-append f.field (String.◌++◌ f.op (String.◌++◌ ":" (text_of f.value)))
            p.no_colon,
        split_colon-append f.op (text_of f.value) no_colon,
        named,
        p.known,
        value_for-text_of (operator_arity f.op) f.value p.shaped,
      )
      refl

abbrev pub AllPortable : List SearchFilter → Type 0
AllPortable [] = Unit
AllPortable (f ∷ fs) = IsPortable f × AllPortable fs

pub map-parse_filter :
    (fs : List SearchFilter) → AllPortable fs → map parse_filter (map serialize_filter fs) ≡ fs
map-parse_filter [] _ = refl
map-parse_filter (f ∷ fs) (p, ps) = rw (parse_filter-serialize_filter f p, map-parse_filter fs ps)

abbrev pub listed : Option (List String) → List String
listed none = []
listed (some ss) = ss

-- A route that carries the parameters: one filter stands alone or in an array.
pub record Carries (params : SearchParams) (route : RouteQuery) : Type 0 where
  pub same_q : route.q ≡ params.q
  pub same_filters : raw_filters route.filter ≡ listed params.filter

pub if_truthy_idem : (o : Option String) → if_truthy (if_truthy o) ≡ if_truthy o
if_truthy_idem o = ground arith

truthy-if_truthy : (o : Option String) → truthy (if_truthy o) ≡ truthy o
truthy-if_truthy o = ground arith

is_search_mode-raw_filters :
    (route : RouteQuery)
    → is_search_mode route ≡ (truthy route.q || ltb 0 (length (raw_filters route.filter)))
unfolding is_search_mode
is_search_mode-raw_filters route = ground arith

pub listed-some :
    (fs : List SearchFilter)
    → listed (if ltb 0 (length fs) then some (map serialize_filter fs) else none)
      ≡ map serialize_filter fs
listed-some [] = refl
listed-some (f ∷ fs) = ground arith

-- A query whose filters are all portable comes back from any route that carries its parameters,
-- with an empty text or content type read as none, and the route is in search mode exactly when
-- the query has a text or a filter.
pub route_to_search_query-compile_query :
    (query : SearchQuery) (route : RouteQuery)
    → AllPortable query.filters
    → Carries (compile_query query) route
    → (route_to_search_query route (compile_query query).content_type
        ≡ record query { content_type = if_truthy query.content_type; q = if_truthy query.q })
      × (is_search_mode route ≡ (truthy query.q || ltb 0 (length query.filters)))
unfolding route_to_search_query compile_query
route_to_search_query-compile_query query route portable c =
    let raw = c.same_filters ∙ listed-some query.filters in
    (
      rw
          (
            raw,
            c.same_q,
            if_truthy_idem query.q,
            if_truthy_idem query.content_type,
            map-parse_filter query.filters portable,
          )
          refl,
      rw (is_search_mode-raw_filters route, c.same_q, truthy-if_truthy query.q, raw)
          (rw length-map refl),
    )
