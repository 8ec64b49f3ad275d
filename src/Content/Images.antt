-- ===== src/Content/Images.antt =====
-- apps/cms/server/utils/validateEntryData.ts: a stored image is stored again as it is.
use boject_cms.Common.{true, ◌≡◌, refl, Option, none, some, arith, string_eq}
use boject_cms.Content.Json.{Json, null, bool, num, str, arr, obj, Fields, get}
use boject_cms.Content.Richtext.{no_text}
use boject_cms.Content.Validate.{Platform, no_number, original_name, focal_point, image_value}
use boject_cms.Content.Validate.{value_or_null}

module _ {N : Type 0} (p : Platform N) where
  original_name_self :
      (t : Option (Json N)) → original_name p (some (original_name p t)) ≡ original_name p t
  original_name_self none = refl
  original_name_self (some (str s)) = refl
  original_name_self (some null) = refl
  original_name_self (some (bool b)) = refl
  original_name_self (some (num x)) = refl
  original_name_self (some (arr xs)) = refl
  original_name_self (some (obj fs)) = refl

  focal_point_self :
      (t : Option (Json N))
      → p.in_unit p.half ≡ true
      → focal_point p (some (focal_point p t)) ≡ focal_point p t
  focal_point_self (some (num x)) h = ground (arith, h)
  focal_point_self none h = ground (arith, h)
  focal_point_self (some null) h = ground (arith, h)
  focal_point_self (some (bool b)) h = ground (arith, h)
  focal_point_self (some (str s)) h = ground (arith, h)
  focal_point_self (some (arr xs)) h = ground (arith, h)
  focal_point_self (some (obj fs)) h = ground (arith, h)

  pub no_text_lem : (t : Option (Json N)) → no_text (some (value_or_null p t)) ≡ no_text t
  no_text_lem none = refl
  no_text_lem (some v) = refl

  pub no_number_lem : (t : Option (Json N)) → no_number p (some (value_or_null p t)) ≡ no_number p t
  no_number_lem none = refl
  no_number_lem (some v) = refl

  pub image_value_self :
      (img : Fields N)
      → p.in_unit p.half ≡ true
      → image_value p (image_value p img) ≡ image_value p img
  image_value_self img h = ground (
    arith,
    original_name_self (get "originalName" img),
    focal_point_self (get "focalPointX" img) h,
    focal_point_self (get "focalPointY" img) h,
  )
