-- ===== src/Entry/ListDatabase.antt =====
-- A database of version rows in a list, without webhooks: it shows that the laws can be met, and
-- runs the handlers on examples. A new row gets an id that is longer than every other.
use Prim.Native.String
use Prim.Native.String.{count}
use mathlib.Core.List.Permᴰ
use mathlib.Core.List.{Permᴰ}
use mathlib.Core.Path.{subst}
use mathlib.Core.Option.{some-injective}
use text.Mathlib.TextLemmas.{length-append}
use boject_cms.Common.{
  String, ◌≤◌, ◌<◌, ◌==◌, ◌≡◌, refl, true, false, ◌&&◌, List, [], ◌∷◌, Option, none, some,
  if◌then◌else◌, arith, eq_iff, Bool-cases, inl, inr, ap,
}
use boject_cms.Entry.Version.{ContentEntryVersion}
use boject_cms.Entry.Rows.{VersionPatch, has_row, remove_row, patch_row, index_ok, UniqueIds}
use boject_cms.Entry.Database.{NewVersion, row_of, Database, DatabaseLaws}

abbrev pub Rows : Type 0 → Type 0
Rows D = (vs : List (ContentEntryVersion D)) × UniqueIds vs

module _ {D : Type 0} where
  pub fresh_id : List (ContentEntryVersion D) → String
  fresh_id [] = "x"
  fresh_id (v ∷ vs) = String.◌++◌ v.id (fresh_id vs)

  fresh_id-pos : (vs : List (ContentEntryVersion D)) → 1 ≤ count (fresh_id vs)
  unfolding fresh_id
  fresh_id-pos [] = omega arith
  fresh_id-pos (v ∷ vs) = omega (arith, length-append v.id (fresh_id vs), fresh_id-pos vs)

  has_row-le :
      (i : String) (vs : List (ContentEntryVersion D))
      → has_row i vs ≡ true
      → count i < count (fresh_id vs)
  unfolding fresh_id
  has_row-le i [] h = cc
  has_row-le i (v ∷ vs) h = elim (Bool-cases (v.id == i)) [
    | inl here ↦ omega (
      arith,
      length-append v.id (fresh_id vs),
      fresh_id-pos vs,
      ap count ((eq_iff v.id i).0 here),
    )
    | inr there ↦ omega (arith, length-append v.id (fresh_id vs), has_row-le i vs (ground arith))
  ]

  has_row-remove_row :
      (i j : String) (vs : List (ContentEntryVersion D))
      → has_row i vs ≡ false
      → has_row i (remove_row j vs) ≡ false
  has_row-remove_row i j [] h = refl
  has_row-remove_row i j (v ∷ vs) h = ground (arith, has_row-remove_row i j vs)

  pub remove_row-UniqueIds :
      (j : String) (vs : List (ContentEntryVersion D)) → UniqueIds vs → UniqueIds (remove_row j vs)
  remove_row-UniqueIds j [] u = tt
  remove_row-UniqueIds j (v ∷ vs) u =
      ground (arith, remove_row-UniqueIds j vs, has_row-remove_row v.id j vs)

  has_row-patch_row :
      (i j : String) (p : VersionPatch D) (vs : List (ContentEntryVersion D))
      → has_row i (patch_row j p vs) ≡ has_row i vs
  has_row-patch_row i j p [] = refl
  has_row-patch_row i j p (v ∷ vs) = ground (arith, has_row-patch_row i j p vs)

  pub patch_row-UniqueIds :
      (j : String) (p : VersionPatch D) (vs : List (ContentEntryVersion D))
      → UniqueIds vs
      → UniqueIds (patch_row j p vs)
  patch_row-UniqueIds j p [] u = tt
  patch_row-UniqueIds j p (v ∷ vs) u =
      ground (arith, patch_row-UniqueIds j p vs, has_row-patch_row v.id j p vs)

  pub fresh_id-absent : (vs : List (ContentEntryVersion D)) → has_row (fresh_id vs) vs ≡ false
  fresh_id-absent vs = elim (Bool-cases (has_row (fresh_id vs) vs)) [
    | inl h ↦ absurd (omega (arith, has_row-le (fresh_id vs) vs h))
    | inr h ↦ h
  ]

  abbrev pub update_rows : String → VersionPatch D → Rows D → Option (Rows D)
  update_rows i p (vs, u) =
      if has_row i vs && index_ok (patch_row i p vs)
      then some (patch_row i p vs, patch_row-UniqueIds i p vs u)
      else none

  abbrev pub create_row : NewVersion D → Rows D → Option (Rows D)
  create_row v (vs, u) =
      if index_ok (row_of v (fresh_id vs) ∷ vs)
      then some (row_of v (fresh_id vs) ∷ vs, (fresh_id-absent vs, u))
      else none

abbrev pub list_database : (D : Type 0) → Database D
list_database D = record {
  State = Rows D;
  versions = λ s. s.0;
  delete_version = λ i s.
      if has_row i s.0 then some (remove_row i s.0, remove_row-UniqueIds i s.0 s.1) else none;
  update_version = update_rows;
  create_version = create_row;
  update_envelope = λ slug title s. some s;
  find_webhooks = λ event s. [];
  create_delivery = λ d s. some ("delivery", s);
  set_payload = λ i p s. some s;
}

pub list_database-DatabaseLaws : (D : Type 0) → DatabaseLaws (list_database D)
list_database-DatabaseLaws D = record {
  unique_ids = λ s. s.1;
  delete_lem = λ i s h. ((remove_row i s.0, remove_row-UniqueIds i s.0 s.1), rw h, Permᴰ.refl _);
  update_lem =
      λ i p s h k. ((patch_row i p s.0, patch_row-UniqueIds i p s.0 s.1), rw (h, k), Permᴰ.refl _);
  update_missing = λ i p s h. ground arith;
  update_conflict = λ i p s h. ground arith;
  create_lem = λ v s h. (
    fresh_id s.0,
    (row_of v (fresh_id s.0) ∷ s.0, (fresh_id-absent s.0, s.1)),
    rw (h (fresh_id s.0)),
    Permᴰ.refl _,
  );
  create_conflict = λ v s h. rw (h (fresh_id s.0)) refl;
  envelope_lem =
      λ slug title s s' e. subst (λ t. Permᴰ (t.0) (s.0)) (some-injective _ _ e) (Permᴰ.refl _);
  has_webhook = λ i s. true;
  find_webhooks_lem = λ event s. refl;
  create_delivery_lem = λ d s h.
      ("delivery", s, refl, Permᴰ.refl _, λ w k. k, λ p. (s, refl, Permᴰ.refl _, λ w k. k));
}
