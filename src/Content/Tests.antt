-- ===== src/Content/Tests.antt =====
-- Instances at a type with a title, a relation and a rich text field; numbers are natural.
use boject_cms.Common.{
  ℕ, String, ◌==◌, leb, Bool, true, false, ◌≡◌, ◌↔◌, refl, sym, ap, ◌∙◌, List, [], ◌∷◌, Option,
  none, some, arith, if◌then◌else◌, filter, string_eq, has,
}
use boject_cms.FieldType.{entry_title, richtext, relation, FieldTypeName}
use boject_cms.Content.Json.{
  Json, null, str, arr, obj, nil, cons, Fields, no_fields, field, get, ok,
}
use boject_cms.Content.Text.{trim, is_uuid_text, split_spaces}
use boject_cms.Content.Richtext.{
  Url, Allowed, check_node, check_embed, check_external_link, check_reference, check_url,
  validate_richtext_references,
}
use boject_cms.Content.RichtextLaws.{
  Accepts, IsAllowed, Within, itself, below, first, later, validate_richtext_references_lem,
}
use boject_cms.Content.Options.{ContentField, Schemas, parse_field_options}
use boject_cms.Content.Validate.{
  Platform, check_field, check_present, check_value, check_text, check_relation, reference_of,
  check_allowed, check_exists, check_richtext, validate_entry_data, extract_entry_title,
}
use boject_cms.Content.Conforms.{Conforms}
use boject_cms.Content.Maps.{keys}
use boject_cms.Content.Validated.{
  All, identifiers, validate_entry_data-Conforms, validate_entry_data_self,
}
use boject_cms.Content.Enrich.{
  is_reference, is_richtext, enrich_entry_data, collect_ids, apply_rel_injection, stamp_reference,
}
use boject_cms.Content.EnrichLaws.{IsGuarded}
use boject_cms.Content.Links.{node, through, enrich_entry_data-IsGuarded}
use boject_cms.Content.Unlinked.{enrich_entry_data_self}

abbrev article_id : String
article_id = "11111111-1111-4111-8111-111111111111"

abbrev author_id : String
author_id = "22222222-2222-4222-9222-222222222222"

abbrev to_url : String → Option Url
to_url s =
    if s == "bad"
    then none
    else some (record { protocol = "https:"; pathname = "/"; username = ""; password = "" })

abbrev schemas : Schemas ℕ
schemas = record {
  select_object = λ o. some ([], none);
  boolean_object = λ o. some none;
  number_object = λ o. some none;
  relation_object = λ o. some (article_id ∷ []);
  richtext_object = λ o. some (article_id ∷ [], []);
}

abbrev platform : Platform ℕ
platform = record {
  is_finite = λ x. true;
  in_unit = λ x. leb x 1;
  half = 1;
  is_date = λ s. true;
  new_url = to_url;
  schemas = schemas;
  entry_exists = λ t e. e == author_id;
}

abbrev a_field : String → FieldTypeName → ContentField ℕ
a_field i t = record {
  identifier = i;
  name = i;
  type = t;
  required = false;
  unique = false;
  options = none;
}

abbrev all_fields : List (ContentField ℕ)
all_fields = a_field "title" entry_title ∷ a_field "author" relation ∷ a_field "body" richtext ∷ []

abbrev embed : Fields ℕ
embed = field "type" (str "cmsEmbed") (
    field "attrs"
      (obj (field "contentTypeId" (str article_id) (field "entryId" (str author_id) no_fields)))
      no_fields)

abbrev link : Fields ℕ
link = field "type" (str "externalLink") (
    field "attrs" (obj (field "href" (str "https://x") (field "target" (str "_blank") no_fields)))
      no_fields)

abbrev document : Json ℕ
document = obj (
    field "type" (str "doc")
      (field "content" (arr (cons (obj embed) (cons (obj link) nil))) no_fields))

abbrev given : Fields ℕ
given = field "body" document (
    field "author"
      (obj (
        field "entryId" (str author_id)
          (field "contentTypeId" (str article_id) (field "more" null no_fields))))
      (field "title" (str " Hello ") (field "unknown" null no_fields)))

abbrev stored : Fields ℕ
stored = field "title" (str " Hello ") (
    field "author"
      (obj (field "contentTypeId" (str article_id) (field "entryId" (str author_id) no_fields)))
      (field "body" document no_fields))

accepted : validate_entry_data platform given all_fields ≡ ok stored
unfolding validate_entry_data check_field check_present check_value check_text check_relation
    reference_of is_uuid_text parse_field_options check_allowed has check_exists check_richtext
    validate_richtext_references check_node check_embed check_external_link check_reference
    check_url trim
accepted = refl

title_of_stored : extract_entry_title stored all_fields ≡ "Hello"
unfolding extract_entry_title
title_of_stored = refl

words : split_spaces false "a  b c" ≡ "a" ∷ "b" ∷ "c" ∷ []
unfolding split_spaces
words = refl

abbrev allowed : Allowed
allowed = record { embed_types = article_id ∷ []; link_types = [] }

validate_richtext_references_lem_example :
    Accepts (validate_richtext_references to_url "Body" document allowed)
    ↔ ((n : Fields ℕ) → Within n document → IsAllowed to_url allowed n)
validate_richtext_references_lem_example =
    validate_richtext_references_lem to_url "Body" allowed document

validate_entry_data-Conforms_example :
    (keys stored ≡ identifiers all_fields)
    × All
        (λ f. (v : Json ℕ) × (get f.identifier stored ≡ some v) × Conforms platform f v)
        all_fields
unfolding has
validate_entry_data-Conforms_example =
    validate_entry_data-Conforms platform given all_fields stored accepted
      (refl, (refl, (refl, tt))) refl

validate_entry_data_self_example : validate_entry_data platform stored all_fields ≡ ok stored
unfolding has
validate_entry_data_self_example =
    validate_entry_data_self platform given all_fields stored accepted (refl, (refl, (refl, tt)))
      refl

abbrev load : List String → String → Option String
load ids id = some "Author"

abbrev guarded_link : Fields ℕ
guarded_link = field "type" (str "externalLink") (
    field "attrs"
      (obj (
        field "href" (str "https://x")
          (field "target" (str "_blank") (field "rel" (str "noopener noreferrer") no_fields))))
      no_fields)

abbrev stamped_embed : Fields ℕ
stamped_embed = field "type" (str "cmsEmbed") (
    field "attrs"
      (obj (
        field "contentTypeId" (str article_id) (
          field "entryId" (str author_id)
            (field "contentTypeIdentifier" (str "Author") no_fields))))
      no_fields)

abbrev new_content : Fields ℕ
new_content =
    field "type" (str "doc")
      (field "content" (arr (cons (obj stamped_embed) (cons (obj guarded_link) nil))) no_fields)

stamped : get "body" (enrich_entry_data load stored all_fields) ≡ some (obj new_content)
unfolding enrich_entry_data has stamp_reference apply_rel_injection
stamped = refl

enrich_entry_data-IsGuarded_example :
    (a : Fields ℕ) × (get "attrs" guarded_link ≡ some (obj a)) × IsGuarded a
unfolding has collect_ids
enrich_entry_data-IsGuarded_example =
    enrich_entry_data-IsGuarded load stored all_fields "body" (obj new_content) guarded_link refl
      refl stamped
      (through new_content _ (obj guarded_link) (obj new_content) refl refl refl
        (later (obj stamped_embed) (cons (obj guarded_link) nil) (first nil))
        (node (obj guarded_link) refl))
      refl

abbrev link_alone : Fields ℕ
link_alone = field "body" (obj link) no_fields

is_reference_value : Json ℕ → Bool
is_reference_value (obj n) = is_reference n
is_reference_value _ = false

content_value : Json ℕ → Option (Json ℕ)
content_value (obj n) = get "content" n
content_value _ = none

of_link_alone : (k : String) (doc : Json ℕ) → get k link_alone ≡ some doc → doc ≡ obj link
of_link_alone k doc e = ground arith

-- The only node of the document of `link_alone` is a link out of the system.
only_link :
    (k : String) (doc : Json ℕ) (n : Fields ℕ)
    → has k (identifiers (filter is_richtext all_fields)) ≡ true
    → get k link_alone ≡ some doc
    → Within n doc
    → is_reference n ≡ false
unfolding has is_reference_value content_value
only_link k doc n i e (itself _ h) =
    let same : obj link ≡ obj n = sym (of_link_alone k doc e) ∙ h in
    ap is_reference_value (sym same)
only_link k _ n i e (below m xs child c a w) =
    absurd (ground (arith, ap content_value (of_link_alone k (obj m) e), c))

enrich_entry_data_self_example : enrich_entry_data load link_alone all_fields ≡ link_alone
enrich_entry_data_self_example = enrich_entry_data_self load link_alone all_fields only_link
