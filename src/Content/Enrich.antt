-- ===== src/Content/Enrich.antt =====
-- apps/cms/server/utils/enrichRichtextEmbeds.ts: the stamps on the embeds and links of a document.
use Prim.Native.Char.{Char}
use boject_cms.Common.{
  ℕ, zero, suc, ◌/◌, ◌%◌, String, ◌==◌, eqb, ltb, Bool, false, ◌||◌, not, List, [], ◌∷◌, ◌++◌,
  Option, none, some, if◌then◌else◌, string_eq, has, filter,
}
use boject_cms.FieldType.{richtext, same_type}
use boject_cms.Content.Json.{
  Json, null, bool, num, str, arr, obj, Items, nil, cons, Fields, no_fields, field, get, put,
  property?,
}
use boject_cms.Content.Options.{ContentField}
use boject_cms.Content.Text.{trim, join, split_spaces}
use boject_cms.Content.Richtext.{is_named, no_text, str_of, is_list}

abbrev pub add : String → List String → List String
add x out = if has x out then out else out ++ x ∷ []

-- The tests on the type of a node.
abbrev pub is_reference : {N : Type 0} → Fields N → Bool
is_reference n = is_named "cmsEmbed" (get "type" n) || is_named "cmsLink" (get "type" n)

abbrev pub is_external : {N : Type 0} → Fields N → Bool
is_external n = is_named "externalLink" (get "type" n)

abbrev pub digit : ℕ → Char
digit n =
    if eqb n 0
    then "0"
    else if eqb n 1
    then "1"
    else if eqb n 2
    then "2"
    else if eqb n 3
    then "3"
    else if eqb n 4
    then "4"
    else if eqb n 5
    then "5"
    else if eqb n 6
    then "6"
    else if eqb n 7
    then "7"
    else if eqb n 8
    then "8"
    else "9"

-- A number in decimals in front of a text; it has at most as many digits as the fuel.
unfoldable pub decimals : ℕ → ℕ → String → String
decimals zero n rest = rest
decimals (suc fuel) n rest =
    let front = decimals fuel (n / 10) (String.◌∷◌ (digit (n % 10)) rest) in
    if ltb n 10 then String.◌∷◌ (digit n) rest else front

abbrev pub existing_tokens : String → List String
existing_tokens existing = if existing == "" then [] else split_spaces false existing

abbrev pub rel_tokens : List String → List String
rel_tokens tokens = add "noreferrer" (add "noopener" tokens)

module _ {N : Type 0} where
  -- `Set.prototype.add` for the type of a reference.
  abbrev pub add_type : Fields N → List String → List String
  add_type n out =
      let id = property? "contentTypeId" (get "attrs" n) in
      if is_reference n then if no_text id then out else add (str_of id) out else out

  -- `collectEmbedContentTypeIds(body, out)`.
  unfoldable mutual
    pub collect : Json N → List String → List String
    collect (obj n) out = collect_content n (add_type n out)
    collect _ out = out

    pub collect_content : Fields N → List String → List String
    collect_content no_fields out = out
    collect_content (field k v fs) out =
        let here = collect_children v out in
        let later = collect_content fs out in if k == "content" then here else later

    pub collect_children : Json N → List String → List String
    collect_children (arr xs) out = collect_items xs out
    collect_children _ out = out

    pub collect_items : Items N → List String → List String
    collect_items nil out = out
    collect_items (cons x xs) out = collect_items xs (collect x out)

  -- `{ ...value }`: lists and texts have their indices as keys.
  unfoldable pub index_items : ℕ → Items N → Fields N
  unfolding decimals
  index_items i nil = no_fields
  index_items i (cons x xs) = field (decimals (suc i) i "") x (index_items (suc i) xs)

  unfoldable pub index_text : ℕ → String → Fields N
  unfolding decimals
  index_text i String.[] = no_fields
  index_text i (String.◌∷◌ c cs) =
      field (decimals (suc i) i "") (str (String.◌∷◌ c "")) (index_text (suc i) cs)

  abbrev pub spread : Json N → Fields N
  spread (obj fs) = fs
  spread (arr xs) = index_items 0 xs
  spread (str s) = index_text 0 s
  spread _ = no_fields

  -- `{ ...(attrs ?? {}) }`.
  abbrev pub spread? : Option (Json N) → Fields N
  spread? none = no_fields
  spread? (some v) = spread v

  -- `applyRelInjection`.
  unfoldable pub apply_rel_injection : Fields N → Fields N
  unfolding trim join split_spaces
  apply_rel_injection attrs =
      if is_named "_blank" (get "target" attrs)
      then put "rel"
          (str (join " " (rel_tokens (existing_tokens (trim (str_of (get "rel" attrs))))))) attrs
      else attrs

  module _ (identifier_map : String → Option String) where
    -- `identifierMap.get(attrs.contentTypeId)`, for a text.
    abbrev pub identifier_of : Option (Json N) → Option String
    identifier_of (some (str id)) = identifier_map id
    identifier_of _ = none

    abbrev pub stamp_identifier : Option String → Fields N → Fields N
    stamp_identifier none attrs = attrs
    stamp_identifier (some identifier) attrs = put "contentTypeIdentifier" (str identifier) attrs

    -- The new `attrs` of an embed or of an entry link.
    unfoldable pub stamp_reference : Option (Json N) → Fields N
    unfolding apply_rel_injection
    stamp_reference attrs =
        apply_rel_injection
          (stamp_identifier (identifier_of (property? "contentTypeId" attrs)) (spread? attrs))

    -- `enrichBodyWithContentTypeIdentifiers(body, identifierMap)`.
    unfoldable mutual
      pub enrich : Json N → Json N
      enrich (obj n) =
          let inside = enrich_content n in
          if is_reference n
          then obj (put "attrs" (obj (stamp_reference (get "attrs" n))) n)
          else if is_external n
          then obj (put "attrs" (obj (apply_rel_injection (spread? (get "attrs" n)))) n)
          else obj inside
      enrich (arr xs) = obj (index_items 0 xs)
      enrich null = null
      enrich (bool b) = bool b
      enrich (num x) = num x
      enrich (str s) = str s

      pub enrich_content : Fields N → Fields N
      enrich_content no_fields = no_fields
      enrich_content (field k v fs) =
          let here = enrich_children v in
          let later = enrich_content fs in
          if k == "content" then field k here fs else field k v later

      pub enrich_children : Json N → Json N
      enrich_children (arr xs) = arr (enrich_items xs)
      enrich_children v = v

      pub enrich_items : Items N → Items N
      enrich_items nil = nil
      enrich_items (cons x xs) = cons (enrich x) (enrich_items xs)

module _ {N : Type 0} where
  abbrev pub is_richtext : ContentField N → Bool
  is_richtext f = same_type f.type richtext

  -- `if (body != null) collect`.
  abbrev pub collect_body : Option (Json N) → List String → List String
  collect_body none out = out
  collect_body (some null) out = out
  collect_body (some body) out = collect body out

  unfoldable pub collect_ids : Fields N → List (ContentField N) → List String → List String
  unfolding collect
  collect_ids entry [] out = out
  collect_ids entry (f ∷ fs) out = collect_ids entry fs (collect_body (get f.identifier entry) out)

  abbrev pub put_enriched :
      (String → Option String) → String → Option (Json N) → Fields N → Fields N
  put_enriched map k none out = out
  put_enriched map k (some null) out = out
  put_enriched map k (some body) out = put k (enrich map body) out

  unfoldable pub enrich_bodies :
      (String → Option String) → Fields N → List (ContentField N) → Fields N → Fields N
  unfolding enrich
  enrich_bodies map entry [] out = out
  enrich_bodies map entry (f ∷ fs) out =
      enrich_bodies map entry fs (put_enriched map f.identifier (get f.identifier entry) out)

  -- `enrichEntryDataWithEmbedIdentifiers(data, fields, deps)`; the load of the identifiers is a
  -- parameter.
  unfoldable pub enrich_entry_data :
      (List String → String → Option String) → Fields N → List (ContentField N) → Fields N
  unfolding collect_ids enrich_bodies
  enrich_entry_data load_identifiers entry fields =
      let richtext_fields = filter is_richtext fields in
      let all_ids = collect_ids entry richtext_fields [] in
      if not (is_list richtext_fields)
      then entry
      else if not (is_list all_ids)
      then entry
      else enrich_bodies (load_identifiers all_ids) entry richtext_fields entry
