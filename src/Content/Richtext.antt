-- ===== src/Content/Richtext.antt =====
-- apps/cms/server/utils/validateEntryData.ts: the references and links of a rich text document
-- (`validateRichtextReferences`). Parsing a URL is a parameter. The walk recurs on the document, the
-- checks of a node come before those of its content.
use Prim.Native.String.{◌++◌ as ◌<>◌}
use boject_cms.Common.{
  String, ◌==◌, Bool, true, false, ◌&&◌, ◌||◌, not, List, [], ◌∷◌, Option, none, some,
  if◌then◌else◌, string_eq, has,
}
use boject_cms.Content.Json.{
  Json, str, arr, obj, Items, nil, cons, Fields, no_fields, field, get, property?, Outcome, ok,
  create_error, refuse_if, ◌>>=◌,
}
use boject_cms.Content.Text.{trim}

-- The parts of a `URL` that are read.
pub record Url : Type 0 where
  pub protocol : String
  pub pathname : String
  pub username : String
  pub password : String

-- What a field allows in its documents.
pub record Allowed : Type 0 where
  pub embed_types : List String
  pub link_types : List String

abbrev pub allowed_external_link_schemes : List String
allowed_external_link_schemes = "http:" ∷ "https:" ∷ "mailto:" ∷ "tel:" ∷ []

-- `typeof id !== 'string' || id === ''`.
abbrev pub no_text : {N : Type 0} → Option (Json N) → Bool
no_text (some (str s)) = s == ""
no_text _ = true

abbrev pub str_of : {N : Type 0} → Option (Json N) → String
str_of (some (str s)) = s
str_of _ = ""

abbrev pub is_list : {A : Type 0} → List A → Bool
is_list [] = false
is_list (x ∷ xs) = true

-- `node.type === name`.
abbrev pub is_named : {N : Type 0} → String → Option (Json N) → Bool
is_named name (some (str s)) = s == name
is_named name _ = false

unfoldable pub check_url : String → Option Url → Outcome Bool
check_url field_name none =
    create_error 400 (field_name <> ": External link href is not a valid URL.")
check_url field_name (some parsed) =
    refuse_if (not (has parsed.protocol allowed_external_link_schemes))
      (field_name <> (": External link scheme '" <> (parsed.protocol <> "' is not allowed.")))
      (refuse_if
        ((parsed.protocol == "mailto:" || parsed.protocol == "tel:") && trim parsed.pathname == "")
        (field_name
          <> (": External link "
              <> ((if parsed.protocol == "mailto:" then "mailto" else "tel")
                  <> " target is missing.")))
        (refuse_if (not (parsed.username == "") || not (parsed.password == ""))
          (field_name <> ": External link must not embed credentials.") (ok true)))

module _ {N : Type 0} (new_url : String → Option Url) (field_name : String) where
  -- The ids of an embed or of a link, against the types that the field allows.
  unfoldable pub check_reference :
      (missing not_allowed other_type : String) → List String → Option (Json N) → Outcome Bool
  check_reference missing not_allowed other_type allowed attrs =
      let content_type_id = property? "contentTypeId" attrs in
      let shown = " (contentTypeId: " <> (str_of content_type_id <> ").") in
      refuse_if (no_text content_type_id || no_text (property? "entryId" attrs))
        (field_name <> missing)
        (refuse_if (not (is_list allowed)) (field_name <> (not_allowed <> shown)) (
          refuse_if (not (has (str_of content_type_id) allowed))
            (field_name <> (other_type <> shown)) (ok true)))

  unfoldable pub check_external_link : Option (Json N) → Outcome Bool
  unfolding check_url
  check_external_link (some (str href)) =
      refuse_if (trim href == "") (field_name <> ": External link is missing href.")
        (check_url field_name (new_url href))
  check_external_link _ = create_error 400 (field_name <> ": External link is missing href.")

  unfoldable pub check_embed : Allowed → Option (Json N) → Outcome Bool
  unfolding check_reference
  check_embed allowed attrs =
      check_reference ": Invalid inline embed (missing contentTypeId or entryId)."
        ": Inline embeds are not allowed in this field"
        ": Inline embed references a content type that is not allowed for this field"
        allowed.embed_types attrs

  unfoldable pub check_link : Allowed → Option (Json N) → Outcome Bool
  unfolding check_reference
  check_link allowed attrs =
      check_reference ": Invalid entry link (missing contentTypeId or entryId)."
        ": Entry links are not allowed in this field"
        ": Entry link references a content type that is not allowed for this field"
        allowed.link_types attrs

  -- The three tests on the type of a node; at most one of them holds.
  unfoldable pub check_node : Allowed → Fields N → Outcome Bool
  check_node allowed n =
      let type = get "type" n in
      let attrs = get "attrs" n in
      if is_named "cmsEmbed" type
      then check_embed allowed attrs
      else if is_named "cmsLink" type
      then check_link allowed attrs
      else if is_named "externalLink" type
      then check_external_link (property? "href" attrs)
      else ok true

  -- `walk`, its loop over the children, and the search for the property `content`.
  unfoldable mutual
    pub walk : Allowed → Json N → Outcome Bool
    walk allowed (obj n) = check_node allowed n >>= λ _. walk_content allowed n
    walk allowed _ = ok true

    pub walk_content : Allowed → Fields N → Outcome Bool
    walk_content allowed no_fields = ok true
    walk_content allowed (field k v fs) =
        let here = walk_children allowed v in
        let later = walk_content allowed fs in if k == "content" then here else later

    pub walk_children : Allowed → Json N → Outcome Bool
    walk_children allowed (arr xs) = walk_items allowed xs
    walk_children allowed _ = ok true

    pub walk_items : Allowed → Items N → Outcome Bool
    walk_items allowed nil = ok true
    walk_items allowed (cons x xs) = walk allowed x >>= λ _. walk_items allowed xs

  -- `validateRichtextReferences(doc, allowedEmbedTypes, allowedLinkTypes, fieldName)`.
  unfoldable pub validate_richtext_references : Json N → Allowed → Outcome Bool
  unfolding walk
  validate_richtext_references doc allowed = walk allowed doc
