-- ===== src/Content/Validated.antt =====
-- apps/cms/server/utils/validateEntryData.ts: what an accepted entry holds, and that it is accepted
-- again as it is.
use mathlib.Core.Path.{subst}
use mathlib.Core.List.{append-nil, append_assoc}
use boject_cms.Common.{
  String, true, false, ◌≡◌, refl, sym, ap, ◌∙◌, List, [], ◌∷◌, ◌++◌, map, some, arith, string_eq,
  has, has-append, eq_iff,
}
use boject_cms.Content.Json.{Json, Fields, no_fields, get, put, ok, ◌>>=◌}
use boject_cms.Content.Options.{ContentField}
use boject_cms.Content.Outcomes.{>>=-eq-ok, ok-inj}
use boject_cms.Content.Validate.{Platform, check_field, validate_fields, validate_entry_data}
use boject_cms.Content.Conforms.{Conforms}
use boject_cms.Content.Checked.{check_field-Conforms}
use boject_cms.Content.Accepted.{check_field-accepts}
use boject_cms.Content.Maps.{keys, get-put_self, get-put_other, keys-put}

abbrev pub All {ℓ} : {A : Type 0} → (A → Type ℓ) → List A → Type ℓ
All P [] = Unit
All P (x ∷ xs) = P x × All P xs

pub All-map {ℓ κ} :
    {A : Type 0} (P : A → Type ℓ) (Q : A → Type κ) (xs : List A)
    → ((x : A) → P x → Q x)
    → All P xs
    → All Q xs
All-map P Q [] f h = tt
All-map P Q (x ∷ xs) f (p, h) = (f x p, All-map P Q xs f h)

abbrev pub identifiers : {N : Type 0} → List (ContentField N) → List String
identifiers = map (λ f. f.identifier)

-- The unique index over the identifiers of the fields of a type.
abbrev pub AreDistinct : {N : Type 0} → List (ContentField N) → Type 0
AreDistinct [] = Unit
AreDistinct (f ∷ fs) = (has f.identifier (identifiers fs) ≡ false) × AreDistinct fs

All-fresh :
    {N : Type 0} (fs : List (ContentField N)) (k : String) (ks : List String)
    → has k (identifiers fs) ≡ false
    → All (λ f. has f.identifier ks ≡ false) fs
    → All (λ f. has f.identifier (ks ++ k ∷ []) ≡ false) fs
unfolding has
All-fresh [] k ks h a = tt
All-fresh (f ∷ fs) k ks h (b, a) = (
  ground (arith, has-append f.identifier ks (k ∷ []), eq_iff f.identifier k, eq_iff k f.identifier),
  All-fresh fs k ks (ground arith) a,
)

absent_at_first :
    {N : Type 0} (fs : List (ContentField N)) → All (λ f. has f.identifier [] ≡ false) fs
unfolding has
absent_at_first [] = tt
absent_at_first (f ∷ fs) = (refl, absent_at_first fs)

module _ {N : Type 0} (p : Platform N) where
  -- What the validation made of the value of a field.
  abbrev Checked : Fields N → Fields N → ContentField N → Type 0
  Checked entry out f =
      (v : Json N) × (check_field p f (get f.identifier entry) ≡ ok v)
      × (get f.identifier out ≡ some v)

  kept :
      (entry : Fields N) (fs : List (ContentField N)) (acc out : Fields N) (k : String)
      → validate_fields p entry fs acc ≡ ok out
      → has k (identifiers fs) ≡ false
      → get k out ≡ get k acc
  unfolding validate_fields has
  kept entry [] acc out k h e = ground arith
  kept entry (f ∷ fs) acc out k h e =
      let (v, c, r) = >>=-eq-ok (check_field p f (get f.identifier entry)) _ out h in
      kept entry fs (put f.identifier v acc) out k r (ground arith)
      ∙ get-put_other k f.identifier v acc (ground arith)

  each :
      (entry : Fields N) (fs : List (ContentField N)) (acc out : Fields N)
      → validate_fields p entry fs acc ≡ ok out
      → AreDistinct fs
      → All (Checked entry out) fs
  unfolding validate_fields
  each entry [] acc out h d = tt
  each entry (f ∷ fs) acc out h (fresh, d) =
      let (v, c, r) = >>=-eq-ok (check_field p f (get f.identifier entry)) _ out h in
      (
        (
          v,
          c,
          kept entry fs (put f.identifier v acc) out f.identifier r fresh
              ∙ get-put_self f.identifier v acc,
        ),
        each entry fs (put f.identifier v acc) out r d,
      )

  simulate :
      (entry entry' : Fields N) (fs : List (ContentField N)) (acc out : Fields N)
      → All
          (λ f.
            (v : Json N)
            → check_field p f (get f.identifier entry) ≡ ok v
            → check_field p f (get f.identifier entry') ≡ ok v)
          fs
      → validate_fields p entry fs acc ≡ ok out
      → validate_fields p entry' fs acc ≡ ok out
  unfolding validate_fields
  simulate entry entry' [] acc out _ h = h
  simulate entry entry' (f ∷ fs) acc out (s, more) h =
      let (v, c, r) = >>=-eq-ok (check_field p f (get f.identifier entry)) _ out h in
      ap (λ o. o >>= λ v. validate_fields p entry' fs (put f.identifier v acc)) (s v c)
      ∙ simulate entry entry' fs (put f.identifier v acc) out more r

  keys_of :
      (entry : Fields N) (fs : List (ContentField N)) (acc out : Fields N)
      → validate_fields p entry fs acc ≡ ok out
      → AreDistinct fs
      → All (λ f. has f.identifier (keys acc) ≡ false) fs
      → keys out ≡ keys acc ++ identifiers fs
  unfolding validate_fields
  keys_of entry [] acc out h d a = ap keys (sym (ok-inj acc out h)) ∙ sym (append-nil (keys acc))
  keys_of entry (f ∷ fs) acc out h (fresh, d) (b, a) =
      let (v, c, r) = >>=-eq-ok (check_field p f (get f.identifier entry)) _ out h in
      let e = keys-put f.identifier v acc b in
      let rest = keys_of entry fs (put f.identifier v acc) out r d (
        subst (λ ks. All (λ f. has f.identifier ks ≡ false) fs) (sym e)
          (All-fresh fs f.identifier (keys acc) fresh a)) in
      rest
      ∙ (ap (λ ks. ks ++ identifiers fs) e
          ∙ append_assoc (keys acc) (f.identifier ∷ []) (identifiers fs))

  -- Where identifiers are distinct and one half is in the unit range, an accepted entry has the
  -- identifiers of the fields as its keys, in their order, and for each
  -- field a value that conforms to it: null if the field is not required, else a value of its type.
  pub validate_entry_data-Conforms :
      (entry : Fields N) (fields : List (ContentField N)) (out : Fields N)
      → validate_entry_data p entry fields ≡ ok out
      → AreDistinct fields
      → p.in_unit p.half ≡ true
      → (keys out ≡ identifiers fields)
        × All (λ f. (v : Json N) × (get f.identifier out ≡ some v) × Conforms p f v) fields
  unfolding validate_entry_data
  validate_entry_data-Conforms entry fields out h d u = (
    keys_of entry fields no_fields out h d (absent_at_first fields),
    All-map (Checked entry out) _ fields
        (λ f (v, c, g). (v, g, check_field-Conforms p f (get f.identifier entry) v c u))
        (each entry fields no_fields out h d),
  )

  -- Where identifiers are distinct and one half is in the unit range, an accepted entry is accepted
  -- again, while the database has the entries it refers to, and nothing is changed in it.
  pub validate_entry_data_self :
      (entry : Fields N) (fields : List (ContentField N)) (out : Fields N)
      → validate_entry_data p entry fields ≡ ok out
      → AreDistinct fields
      → p.in_unit p.half ≡ true
      → validate_entry_data p out fields ≡ ok out
  unfolding validate_entry_data
  validate_entry_data_self entry fields out h d u =
      simulate entry out fields no_fields out
        (All-map (Checked entry out) _ fields
          (λ f (v, c, g) w c'.
            ap (check_field p f) g
            ∙ (check_field-accepts p f v (check_field-Conforms p f (get f.identifier entry) v c u)
                ∙ (sym c ∙ c')))
          (each entry fields no_fields out h d))
        h
