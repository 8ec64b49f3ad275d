-- ===== src/Content/Accepted.antt =====
-- apps/cms/server/utils/validateEntryData.ts: values of the type of a field are accepted as they are.
use Prim.Native.String.{◌++◌ as ◌<>◌}
use boject_cms.Common.{
  String, Bool, true, false, ◌&&◌, not, ◌≡◌, refl, sym, ap, ◌∙◌, List, [], ◌∷◌, some, arith,
  string_eq, has,
}
use boject_cms.FieldType.{FieldTypeName, entry_title, slug, text, textarea}
use boject_cms.Content.Json.{
  Json, bool, num, str, arr, obj, Items, cons, Fields, no_fields, field, Outcome, ok, ◌>>=◌,
}
use boject_cms.Content.Text.{is_uuid_text}
use boject_cms.Content.Richtext.{validate_richtext_references, is_list}
use boject_cms.Content.RichtextLaws.{Accepts, validate_richtext_references_lem}
use boject_cms.Content.Options.{ContentField, FieldOptions, parse_field_options}
use boject_cms.Content.Validate.{
  Platform, Reference, is_unset, choices_of, allowed_of, reference_value, reference_of, check_text,
  check_number, check_boolean, check_datetime, check_select, check_richtext, check_allowed,
  check_exists, check_relation, item_reference, check_item, check_items, check_multirelation,
  image_value, check_image, check_value, check_present, check_field,
}
use boject_cms.Content.Conforms.{
  is_textual, IsTarget, AreTargets, no_target, target, IsImage, IsValue, is_text, is_number,
  is_bool, is_datetime, is_choice, is_document, is_relation, is_multirelation, is_image, Conforms,
  blank, filled,
}

abbrev pub Stays : {N : Type 0} → Outcome (Json N) → Json N → Type 0
Stays o v = o ≡ ok v

module _ {N : Type 0} (p : Platform N) (f : ContentField N) where
  IsValue-is_unset : (t : FieldTypeName) (v : Json N) → IsValue p f t v → is_unset (some v) ≡ false
  IsValue-is_unset _ _ (is_text t s e n) = n
  IsValue-is_unset _ _ (is_number x h) = refl
  IsValue-is_unset _ _ (is_bool b) = refl
  IsValue-is_unset _ _ (is_datetime s d n) = n
  IsValue-is_unset _ _ (is_choice s opts o h n) = n
  IsValue-is_unset _ _ (is_document doc opts o h) = refl
  IsValue-is_unset _ _ (is_relation v r opts e o h) = ap (λ v. is_unset (some v)) e
  IsValue-is_unset _ _ (is_multirelation xs opts o h) = refl
  IsValue-is_unset _ _ (is_image img h) = refl

  accept_text :
      (t : FieldTypeName) (s : String)
      → is_textual t ≡ true
      → check_value p t f (str s) ≡ ok (str s)
  unfolding check_value check_text
  accept_text entry_title s h = refl
  accept_text slug s h = refl
  accept_text text s h = refl
  accept_text textarea s h = refl
  accept_text t s h = absurd (ground arith)

  reference_of-reference_value :
      (m : String) (r : Reference)
      → is_uuid_text r.content_type_id ≡ true
      → is_uuid_text r.entry_id ≡ true
      → reference_of {N = N} m (
          field "contentTypeId"
            (str r.content_type_id)
            (field "entryId" (str r.entry_id) no_fields))
        ≡ ok r
  unfolding reference_of
  reference_of-reference_value m r t e = ground (arith, t, e)

  accept_relation :
      (r : Reference) (opts : FieldOptions N)
      → parse_field_options p.schemas f.type f.options ≡ ok opts
      → IsTarget p f opts r
      → check_relation p f (reference_value r) ≡ ok (reference_value r)
  unfolding check_relation check_allowed check_exists
  accept_relation r opts o g = ground (
    arith,
    reference_of-reference_value (f.name <> " must have valid contentTypeId and entryId UUIDs") r
        g.type_id g.own_id,
    o,
    g.allowed,
    g.there,
  )

  accept_item :
      (opts : FieldOptions N) (seen : List String) (r : Reference)
      → IsTarget p f opts r
      → has r.entry_id seen ≡ false
      → check_item p f opts seen (reference_value r) ≡ ok r
  unfolding check_item check_allowed check_exists item_reference
  accept_item opts seen r g fresh = ground (
    arith,
    reference_of-reference_value
        (f.name <> " items must have valid contentTypeId and entryId UUIDs") r g.type_id g.own_id,
    fresh,
    g.allowed,
    g.there,
  )

  accept_items :
      (opts : FieldOptions N) (seen : List String) (xs : Items N)
      → AreTargets p f opts seen xs
      → check_items p f opts seen xs ≡ ok xs
  unfolding check_items
  accept_items opts _ _ (no_target seen) = refl
  accept_items opts _ _ (target seen r x xs e g fresh rest) =
      ap (λ x. check_items p f opts seen (cons x xs)) e
      ∙ (ap
            (λ o. o >>= (λ q. check_items p f opts (q.entry_id ∷ seen) xs >>= λ ys.
              ok (cons (reference_value q) ys)))
            (accept_item opts seen r g fresh)
          ∙ (ap (λ o. o >>= (λ ys. ok (cons (reference_value r) ys)))
                (accept_items opts (r.entry_id ∷ seen) xs rest)
              ∙ ap (λ x. ok (cons x xs)) (sym e)))

  accept_number : (x : N) → p.is_finite x ≡ true → check_number p f (num x) ≡ ok (num x)
  unfolding check_number
  accept_number x h = ground (arith, h)

  accept_datetime : (s : String) → p.is_date s ≡ true → check_datetime p f (str s) ≡ ok (str s)
  unfolding check_datetime
  accept_datetime s h = ground (arith, h)

  accept_boolean : (b : Bool) → check_boolean p f (bool b) ≡ ok (bool b)
  unfolding check_boolean
  accept_boolean b = refl

  accept_select :
      (s : String) (opts : FieldOptions N)
      → parse_field_options p.schemas f.type f.options ≡ ok opts
      → (is_list (choices_of opts) && not (has s (choices_of opts))) ≡ false
      → check_select p f (str s) ≡ ok (str s)
  unfolding check_select
  accept_select s opts o h = ground (arith, o, h)

  accept_richtext :
      (doc : Fields N) (opts : FieldOptions N)
      → parse_field_options p.schemas f.type f.options ≡ ok opts
      → Accepts (validate_richtext_references p.new_url f.name (obj doc) (allowed_of opts))
      → check_richtext p f (obj doc) ≡ ok (obj doc)
  unfolding check_richtext
  accept_richtext doc opts o (b, h) = ground (arith, o, h)

  accept_multirelation :
      (xs : Items N) (opts : FieldOptions N)
      → parse_field_options p.schemas f.type f.options ≡ ok opts
      → AreTargets p f opts [] xs
      → check_multirelation p f (arr xs) ≡ ok (arr xs)
  unfolding check_multirelation
  accept_multirelation xs opts o h = ground (arith, o, accept_items opts [] xs h)

  accept_image : (img : Fields N) → IsImage p f img → check_image p f (obj img) ≡ ok (obj img)
  unfolding check_image
  accept_image img h = passed ∙ ap (λ i. ok (obj i)) (sym h.whole)
    where
      passed : check_image p f (obj img) ≡ ok (obj (image_value p img))
      passed = ground (arith, h.storage_key, h.mime_type, h.width, h.height, h.file_size)

  accept_value : (t : FieldTypeName) (v : Json N) → IsValue p f t v → check_value p t f v ≡ ok v
  unfolding check_value
  accept_value _ _ (is_text t s e n) = accept_text t s e
  accept_value _ _ (is_number x h) = accept_number x h
  accept_value _ _ (is_bool b) = accept_boolean b
  accept_value _ _ (is_datetime s d n) = accept_datetime s d
  accept_value _ _ (is_choice s opts o h n) = accept_select s opts o h
  accept_value _ _ (is_document doc opts o h) =
      accept_richtext doc opts o
        ((validate_richtext_references_lem p.new_url f.name (allowed_of opts) (obj doc)).1 h)
  accept_value _ _ (is_relation v r opts e o h) =
      ap (check_relation p f) e ∙ (accept_relation r opts o h ∙ ap ok (sym e))
  accept_value _ _ (is_multirelation xs opts o h) = accept_multirelation xs opts o h
  accept_value _ _ (is_image img h) = accept_image img h

  -- A value of the field is what the check makes of it.
  pub check_field-accepts : (v : Json N) → Conforms p f v → check_field p f (some v) ≡ ok v
  unfolding check_field check_present
  check_field-accepts _ (blank r) = ground (arith, r)
  check_field-accepts _ (filled v h) =
      ground (arith, IsValue-is_unset f.type v h, accept_value f.type v h)
