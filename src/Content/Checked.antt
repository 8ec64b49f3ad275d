-- ===== src/Content/Checked.antt =====
-- apps/cms/server/utils/validateEntryData.ts: what the checks of one value let through has the type of
-- the field.
use mathlib.Core.Path.{subst}
use boject_cms.Common.{
  String, true, false, ◌&&◌, ◌||◌, not, ◌≡◌, refl, sym, ap, ◌∙◌, List, [], ◌∷◌, Option, none, some,
  arith, string_eq, has, Bool-cases, inl, inr,
}
use boject_cms.FieldType.{
  FieldTypeName, entry_title, slug, text, textarea, number, boolean, datetime, select, richtext,
  relation, multirelation, image,
}
use boject_cms.Content.Json.{
  Json, null, bool, num, str, arr, obj, Items, nil, cons, Fields, get, Outcome, ok,
}
use boject_cms.Content.Text.{is_uuid_text, is_uuid}
use boject_cms.Content.Richtext.{validate_richtext_references, no_text, str_of, is_list}
use boject_cms.Content.RichtextLaws.{validate_richtext_references_lem}
use boject_cms.Content.Options.{ContentField, FieldOptions, parse_field_options}
use boject_cms.Content.Validate.{
  Platform, Reference, is_unset, choices_of, targets_of, allowed_of, reference_value, reference_of,
  check_text, check_number, check_boolean, check_datetime, check_select, check_richtext,
  check_allowed, check_exists, check_relation, item_reference, check_item, check_items,
  check_multirelation, no_number, image_value, check_image, check_value, check_present, check_field,
}
use boject_cms.Content.Outcomes.{>>=-eq-ok, ok-inj, refuse_if-eq-ok}
use boject_cms.Content.Images.{no_text_lem, no_number_lem, image_value_self}
use boject_cms.Content.Conforms.{
  is_textual, IsTarget, AreTargets, no_target, target, IsValue, is_text, is_number, is_bool,
  is_datetime, is_choice, is_document, is_relation, is_multirelation, is_image, Conforms, blank,
  filled,
}

uuid_text :
    {N : Type 0} (t : Option (Json N)) (s : String)
    → is_uuid t ≡ true
    → str_of t ≡ s
    → is_uuid_text s ≡ true
uuid_text (some (str s)) s' h e = ap is_uuid_text (sym e) ∙ h
uuid_text none s' h e = absurd (ground arith)
uuid_text (some v) s' h e = absurd (ground arith)

module _ {N : Type 0} (p : Platform N) (f : ContentField N) where
  -- Each check gives a value of its type.
  check_text-IsValue :
      (t : FieldTypeName) (v w : Json N)
      → is_textual t ≡ true
      → check_text p f v ≡ ok w
      → is_unset (some v) ≡ false
      → IsValue p f t w
  unfolding check_text
  check_text-IsValue t (str s) w e h n =
      subst (IsValue p f t) (ok-inj (str s) w h) (is_text t s e n)
  check_text-IsValue t v w e h n = absurd (ground arith)

  check_number-IsValue : (v w : Json N) → check_number p f v ≡ ok w → IsValue p f number w
  unfolding check_number
  check_number-IsValue (num x) w h =
      let (b, e) = refuse_if-eq-ok (not (p.is_finite x)) _ _ w h in
      subst (IsValue p f number) (ok-inj (num x) w e) (is_number x (ground arith))
  check_number-IsValue v w h = absurd (ground arith)

  check_boolean-IsValue : (v w : Json N) → check_boolean p f v ≡ ok w → IsValue p f boolean w
  unfolding check_boolean
  check_boolean-IsValue (bool b) w h = subst (IsValue p f boolean) (ok-inj (bool b) w h) (is_bool b)
  check_boolean-IsValue v w h = absurd (ground arith)

  check_datetime-IsValue :
      (v w : Json N)
      → check_datetime p f v ≡ ok w
      → is_unset (some v) ≡ false
      → IsValue p f datetime w
  unfolding check_datetime
  check_datetime-IsValue (str s) w h n =
      let (b, e) = refuse_if-eq-ok (not (p.is_date s)) _ _ w h in
      subst (IsValue p f datetime) (ok-inj (str s) w e) (is_datetime s (ground arith) n)
  check_datetime-IsValue v w h n = absurd (ground arith)

  check_select-IsValue :
      (v w : Json N) → check_select p f v ≡ ok w → is_unset (some v) ≡ false → IsValue p f select w
  unfolding check_select
  check_select-IsValue (str s) w h n =
      let (opts, o, k) = >>=-eq-ok (parse_field_options p.schemas f.type f.options) _ w h in
      let (b, e) =
        refuse_if-eq-ok (is_list (choices_of opts) && not (has s (choices_of opts))) _ _ w k in
      subst (IsValue p f select) (ok-inj (str s) w e) (is_choice s opts o b n)
  check_select-IsValue v w h n = absurd (ground arith)

  check_richtext-IsValue : (v w : Json N) → check_richtext p f v ≡ ok w → IsValue p f richtext w
  unfolding check_richtext
  check_richtext-IsValue (obj doc) w h =
      let (opts, o, k) = >>=-eq-ok (parse_field_options p.schemas f.type f.options) _ w h in
      let (b, a, e) =
        >>=-eq-ok (validate_richtext_references p.new_url f.name (obj doc) (allowed_of opts)) _ w
          k in
      let all =
        (validate_richtext_references_lem p.new_url f.name (allowed_of opts) (obj doc)).0 (b, a) in
      subst (IsValue p f richtext) (ok-inj (obj doc) w e) (is_document doc opts o all)
  check_richtext-IsValue v w h = absurd (ground arith)

  -- A reference that passes the tests is a target.
  reference_of-uuids :
      (m : String) (rel : Fields N) (r : Reference)
      → reference_of m rel ≡ ok r
      → (is_uuid_text r.content_type_id ≡ true) × (is_uuid_text r.entry_id ≡ true)
  unfolding reference_of
  reference_of-uuids m rel r h =
      let (b, e) =
        refuse_if-eq-ok
          (not (is_uuid (get "contentTypeId" rel)) || not (is_uuid (get "entryId" rel))) _ _ r h in
      (
        uuid_text (get "contentTypeId" rel) r.content_type_id (ground arith)
            (ap (λ (o : Reference). o.content_type_id) (ok-inj _ r e)),
        uuid_text (get "entryId" rel) r.entry_id (ground arith)
            (ap (λ (o : Reference). o.entry_id) (ok-inj _ r e)),
      )

  check_allowed-there :
      {A : Type 0} (opts : FieldOptions N) (r : Reference) (k : Outcome A) (a : A)
      → check_allowed p f opts r k ≡ ok a
      → ((is_list (targets_of opts) && not (has r.content_type_id (targets_of opts))) ≡ false)
        × (k ≡ ok a)
  unfolding check_allowed
  check_allowed-there opts r k a h = refuse_if-eq-ok _ _ k a h

  check_exists-there :
      {A : Type 0} (r : Reference) (k : Outcome A) (a : A)
      → check_exists p f r k ≡ ok a
      → (p.entry_exists r.content_type_id r.entry_id ≡ true) × (k ≡ ok a)
  unfolding check_exists
  check_exists-there r k a h =
      let (b, e) = refuse_if-eq-ok (not (p.entry_exists r.content_type_id r.entry_id)) _ k a h in
      (ground arith, e)

  check_relation-IsValue : (v w : Json N) → check_relation p f v ≡ ok w → IsValue p f relation w
  unfolding check_relation
  check_relation-IsValue (obj rel) w h =
      let (r, q, k) = >>=-eq-ok (reference_of _ rel) _ w h in
      let (t, u) = reference_of-uuids _ rel r q in
      let (opts, o, l) = >>=-eq-ok (parse_field_options p.schemas f.type f.options) _ w k in
      let (a, m) = check_allowed-there opts r _ w l in
      let (x, e) = check_exists-there r _ w m in
      is_relation w r opts (sym (ok-inj (reference_value r) w e)) o
        (record { type_id = t; own_id = u; allowed = a; there = x })
  check_relation-IsValue v w h = absurd (ground arith)

  item_reference-uuids :
      (v : Json N) (r : Reference)
      → item_reference p f v ≡ ok r
      → (is_uuid_text r.content_type_id ≡ true) × (is_uuid_text r.entry_id ≡ true)
  unfolding item_reference
  item_reference-uuids (obj rel) r h = reference_of-uuids _ rel r h
  item_reference-uuids v r h = absurd (ground arith)

  check_item-IsTarget :
      (opts : FieldOptions N) (seen : List String) (x : Json N) (r : Reference)
      → check_item p f opts seen x ≡ ok r
      → IsTarget p f opts r × (has r.entry_id seen ≡ false)
  unfolding check_item
  check_item-IsTarget opts seen x r h =
      let (s, q, k) = >>=-eq-ok (item_reference p f x) _ r h in
      let (t, u) = item_reference-uuids x s q in
      let (a, l) = check_allowed-there opts s _ r k in
      let (fresh, m) = refuse_if-eq-ok (has s.entry_id seen) _ _ r l in
      let (there, e) = check_exists-there s _ r m in
      let both : IsTarget p f opts s × (has s.entry_id seen ≡ false) =
        (record { type_id = t; own_id = u; allowed = a; there = there }, fresh) in
      subst (λ s. IsTarget p f opts s × (has s.entry_id seen ≡ false)) (ok-inj s r e) both

  check_items-AreTargets :
      (opts : FieldOptions N) (seen : List String) (xs ys : Items N)
      → check_items p f opts seen xs ≡ ok ys
      → AreTargets p f opts seen ys
  unfolding check_items
  check_items-AreTargets opts seen nil ys h =
      subst (AreTargets p f opts seen) (ok-inj nil ys h) (no_target seen)
  check_items-AreTargets opts seen (cons x xs) ys h =
      let (r, q, k) = >>=-eq-ok (check_item p f opts seen x) _ ys h in
      let (good, fresh) = check_item-IsTarget opts seen x r q in
      let (rest, l, e) = >>=-eq-ok (check_items p f opts (r.entry_id ∷ seen) xs) _ ys k in
      subst (AreTargets p f opts seen) (ok-inj (cons (reference_value r) rest) ys e) (
        target seen r (reference_value r) rest refl good fresh
          (check_items-AreTargets opts (r.entry_id ∷ seen) xs rest l))

  check_multirelation-IsValue :
      (v w : Json N) → check_multirelation p f v ≡ ok w → IsValue p f multirelation w
  unfolding check_multirelation
  check_multirelation-IsValue (arr xs) w h =
      let (opts, o, k) = >>=-eq-ok (parse_field_options p.schemas f.type f.options) _ w h in
      let (ys, l, e) = >>=-eq-ok (check_items p f opts [] xs) _ w k in
      subst (IsValue p f multirelation) (ok-inj (arr ys) w e)
        (is_multirelation ys opts o (check_items-AreTargets opts [] xs ys l))
  check_multirelation-IsValue v w h = absurd (ground arith)

  check_image-IsValue :
      (v w : Json N) → check_image p f v ≡ ok w → p.in_unit p.half ≡ true → IsValue p f image w
  unfolding check_image
  check_image-IsValue (obj img) w h half =
      let (a, i) = refuse_if-eq-ok (no_text (get "storageKey" img)) _ _ w h in
      let (b, j) = refuse_if-eq-ok (no_text (get "mimeType" img)) _ _ w i in
      let (c, k) = refuse_if-eq-ok (no_number p (get "width" img)) _ _ w j in
      let (d, l) = refuse_if-eq-ok (no_number p (get "height" img)) _ _ w k in
      let (e, m) = refuse_if-eq-ok (no_number p (get "fileSize" img)) _ _ w l in
      subst (IsValue p f image) (ok-inj (obj (image_value p img)) w m) (
        is_image (image_value p img) (record {
          storage_key = no_text_lem p (get "storageKey" img) ∙ a;
          mime_type = no_text_lem p (get "mimeType" img) ∙ b;
          width = no_number_lem p (get "width" img) ∙ c;
          height = no_number_lem p (get "height" img) ∙ d;
          file_size = no_number_lem p (get "fileSize" img) ∙ e;
          whole = sym (image_value_self p img half);
        }))
  check_image-IsValue v w h half = absurd (ground arith)

  check_value-IsValue :
      (t : FieldTypeName) (v w : Json N)
      → check_value p t f v ≡ ok w
      → is_unset (some v) ≡ false
      → p.in_unit p.half ≡ true
      → IsValue p f t w
  unfolding check_value
  check_value-IsValue entry_title v w h n u = check_text-IsValue entry_title v w refl h n
  check_value-IsValue slug v w h n u = check_text-IsValue slug v w refl h n
  check_value-IsValue text v w h n u = check_text-IsValue text v w refl h n
  check_value-IsValue textarea v w h n u = check_text-IsValue textarea v w refl h n
  check_value-IsValue number v w h n u = check_number-IsValue v w h
  check_value-IsValue boolean v w h n u = check_boolean-IsValue v w h
  check_value-IsValue datetime v w h n u = check_datetime-IsValue v w h n
  check_value-IsValue select v w h n u = check_select-IsValue v w h n
  check_value-IsValue richtext v w h n u = check_richtext-IsValue v w h
  check_value-IsValue relation v w h n u = check_relation-IsValue v w h
  check_value-IsValue multirelation v w h n u = check_multirelation-IsValue v w h
  check_value-IsValue image v w h n u = check_image-IsValue v w h u

  present :
      (v : Option (Json N)) (w : Json N)
      → check_present p f v ≡ ok w
      → is_unset v ≡ false
      → p.in_unit p.half ≡ true
      → Conforms p f w
  unfolding check_present
  present none w h e u = absurd (ground arith)
  present (some v) w h e u = filled w (check_value-IsValue f.type v w h e u)

  pub check_field-Conforms :
      (v : Option (Json N)) (w : Json N)
      → check_field p f v ≡ ok w
      → p.in_unit p.half ≡ true
      → Conforms p f w
  unfolding check_field check_present
  check_field-Conforms v w h u =
      let (r, k) = refuse_if-eq-ok (f.required && is_unset v) _ _ w h in
      elim (Bool-cases (is_unset v)) [
        | inl e ↦
            subst (Conforms p f) (ok-inj null w (ground (arith, e))) (blank (ground (arith, e)))
        | inr e ↦ present v w (ground (arith, e)) e u
      ]
