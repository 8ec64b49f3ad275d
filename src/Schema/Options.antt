-- ===== src/Schema/Options.antt =====
-- apps/cms/scripts/content-bundle/planSchema.ts: how values and the options of a field are compared
-- (`shallowOptionsEqual`). Options that hold choices or targets hold lists of texts, as the validation
-- of bundles has it.
use boject_cms.Common.{
  String, ◌==◌, eqb, Bool, true, false, ◌&&◌, ◌||◌, not, List, [], ◌∷◌, map, length, all, filter,
  Option, none, some, if◌then◌else◌, string_eq, has,
}
use boject_cms.Schema.Types.{OptionValue, texts, scalar, object, Options}

abbrev pub same_text? : Option String → Option String → Bool
same_text? none none = true
same_text? (some a) (some b) = a == b
same_text? _ _ = false

abbrev pub same_bool : Bool → Bool → Bool
same_bool true b = b
same_bool false b = not b

abbrev pub same_texts : List String → List String → Bool
same_texts [] [] = true
same_texts (a ∷ xs) (b ∷ ys) = a == b && same_texts xs ys
same_texts _ _ = false

abbrev pub option_at : String → Options → Option OptionValue
option_at k [] = none
option_at k ((j, v) ∷ rest) = if j == k then some v else option_at k rest

-- `options ?? {}`.
abbrev pub or_empty : Option Options → Options
or_empty none = []
or_empty (some o) = o

-- `{ ...options, key: value }`.
abbrev pub put_option : String → OptionValue → Options → Options
put_option k v [] = (k, v) ∷ []
put_option k v ((j, w) ∷ rest) =
    let later = put_option k v rest in if j == k then (k, v) ∷ rest else (j, w) ∷ later

abbrev texts_or_empty : Option OptionValue → List String
texts_or_empty (some (texts ts)) = ts
texts_or_empty _ = []

-- `options?.[key] ?? []` as a list of texts.
abbrev pub texts_at : String → Option Options → List String
texts_at k o = texts_or_empty (option_at k (or_empty o))

-- Equality of `JSON.stringify`, and `===`, of two values.
abbrev pub same_json : Option OptionValue → Option OptionValue → Bool
same_json (some (texts xs)) (some (texts ys)) = same_texts xs ys
same_json (some (scalar a)) (some (scalar b)) = a == b
same_json (some (object a)) (some (object b)) = a == b
same_json none none = true
same_json _ _ = false

abbrev pub same_value : Option OptionValue → Option OptionValue → Bool
same_value (some (scalar a)) (some (scalar b)) = a == b
same_value none none = true
same_value _ _ = false

abbrev pub shallow_options_equal : Option Options → Option Options → Bool
shallow_options_equal a b =
    eqb (length (or_empty a)) (length (or_empty b))
    && all
        (λ (p : String × OptionValue).
          same_json (option_at p.0 (or_empty a)) (option_at p.0 (or_empty b)))
        (or_empty a)

-- The keys of `options` that the database does not have with the same value.
abbrev pub unknown_keys : Option Options → Option Options → List String
unknown_keys a b =
    filter
      (λ k.
        not (has k (map (λ (p : String × OptionValue). p.0) (or_empty b)))
        || not (same_value (option_at k (or_empty a)) (option_at k (or_empty b))))
      (map (λ (p : String × OptionValue). p.0) (or_empty a))
