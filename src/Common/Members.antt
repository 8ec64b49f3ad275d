-- ===== src/Common/Members.antt =====
-- Membership in a list (`Array.prototype.includes`, `Set.prototype.has`), for the types with an
-- equality test, and how filtering, appending, searching and erasing change it.
use Prim.Native.Nat.{ℕ, suc, ◌+◌, ◌<◌}
use Prim.Native.String.{String}
use mathlib.Core.Path.{◌≡◌, refl, sym}
use mathlib.Core.Logic.{◌↔◌, ◌⊎◌, inl, inr}
use mathlib.Core.Bool.{Bool, true, false, ◌&&◌, ◌||◌}
use mathlib.Core.List.{List, [], ◌∷◌, ◌++◌}
use mathlib.Core.Option.{none, some}
use native.Mathlib.Omega.{arith}
use text.Mathlib.Text.{◌==◌ as str_eq}
use text.Mathlib.TextEquality.{eq_iff}
use boject_cms.Common.Tests.{if◌then◌else◌, not, ltb, Bool-cases}
use boject_cms.Common.Lists.{length, find?, any, filter, length-filter}

pub record Eq {ℓ} (A : Type ℓ) : Type ℓ where
  pub same : A → A → Bool
  pub same_iff : (a b : A) → (same a b ≡ true) ↔ (a ≡ b)

instance abbrev pub string_eq : Eq String
string_eq = record { same = str_eq; same_iff = eq_iff }

module _ {ℓ} {A : Type ℓ} ⦃e : Eq A⦄ where
  unfoldable pub has : A → List A → Bool
  has a [] = false
  has a (x ∷ xs) = e.same x a || has a xs

  -- The list without the first element that is the one given: `splice(indexOf(a), 1)`.
  unfoldable pub erase : A → List A → List A
  erase a [] = []
  erase a (x ∷ xs) = let rest = erase a xs in if e.same x a then xs else x ∷ rest

  -- The elements once each, in the order of their first occurrence: `new Set(xs)`.
  unfoldable pub distinct : List A → List A
  distinct [] = []
  distinct (x ∷ xs) = x ∷ filter (λ y. not (e.same y x)) (distinct xs)

  pub same_refl : (a : A) → e.same a a ≡ true
  same_refl a = (e.same_iff a a).1 refl

  same_sym : (a b : A) → e.same a b ≡ true → e.same b a ≡ true
  same_sym a b h = (e.same_iff b a).1 (sym ((e.same_iff a b).0 h))

  pub has-append : (a : A) (xs ys : List A) → has a (xs ++ ys) ≡ (has a xs || has a ys)
  unfolding has
  has-append a [] ys = refl
  has-append a (x ∷ xs) ys = ground (arith, has-append a xs ys)

  pub has-any :
      (p : A → Bool) (a : A) (xs : List A) → has a xs ≡ true → p a ≡ true → any p xs ≡ true
  unfolding has
  has-any p a [] h t = absurd (ground arith)
  has-any p a (x ∷ xs) h t = elim (Bool-cases (e.same x a)) [
    | inl hit ↦ let t' : p x ≡ true = rw ((e.same_iff x a).0 hit) t in rw t' refl
    | inr miss ↦ ground (arith, miss, has-any p a xs)
  ]

  pub not_any :
      (p : A → Bool) (a : A) (xs : List A) → any p xs ≡ false → has a xs ≡ true → p a ≡ false
  not_any p a xs clear h = elim (Bool-cases (p a)) [
    | inl t ↦ absurd (ground (arith, has-any p a xs h t))
    | inr f ↦ f
  ]

  pub has-filter : (p : A → Bool) (a : A) (xs : List A) → has a (filter p xs) ≡ (p a && has a xs)
  unfolding has
  has-filter p a [] = ground arith
  has-filter p a (x ∷ xs) = elim (Bool-cases (e.same x a)) [
    | inl hit ↦
        let e' = (e.same_iff x a).0 hit in
        let t : p x ≡ p a = rw e' refl in ground (arith, has-filter p a xs, t, hit)
    | inr miss ↦ ground (arith, miss, has-filter p a xs)
  ]

  pub has-find :
      (p : A → Bool) (a : A) (xs : List A) → find? p xs ≡ some a → (p a ≡ true) × (has a xs ≡ true)
  unfolding has
  has-find p a [] h = absurd (ground arith)
  has-find p a (x ∷ xs) h = ground (arith, has-find p a xs, same_refl a)

  pub not-find :
      (p : A → Bool) (a : A) (xs : List A) → find? p xs ≡ none → has a xs ≡ true → p a ≡ false
  unfolding has
  not-find p a [] h m = absurd (ground arith)
  not-find p a (x ∷ xs) h m = ground (arith, not-find p a xs, (e.same_iff x a).0)

  pub has-erase : (a b : A) (xs : List A) → has b xs ≡ true → (b ≡ a) ⊎ (has b (erase a xs) ≡ true)
  unfolding has erase
  has-erase a b [] h = absurd (ground arith)
  has-erase a b (x ∷ xs) h =
      ground (arith, has-erase a b xs, (e.same_iff x a).0, (e.same_iff x b).0)

  pub erase-has : (a b : A) (xs : List A) → has b (erase a xs) ≡ true → has b xs ≡ true
  unfolding has erase
  erase-has a b [] h = h
  erase-has a b (x ∷ xs) h = ground (arith, erase-has a b xs)

  pub length-erase : (a : A) (xs : List A) → has a xs ≡ true → length xs ≡ length (erase a xs) + 1
  unfolding has erase
  length-erase a [] h = absurd (ground arith)
  length-erase a (x ∷ xs) h = ground (arith, length-erase a xs)

  pub has-distinct : (a : A) (xs : List A) → has a (distinct xs) ≡ has a xs
  unfolding has distinct
  has-distinct a [] = refl
  has-distinct a (x ∷ xs) =
      ground
        (arith, has-distinct a xs, has-filter (λ y. not (e.same y x)) a (distinct xs), same_sym a x)

  pub length-filter_lt :
      (p : A → Bool) (a : A) (xs : List A)
      → has a xs ≡ true
      → p a ≡ false
      → length (filter p xs) < length xs
  unfolding has
  length-filter_lt p a [] h f = absurd (ground arith)
  length-filter_lt p a (x ∷ xs) h f = elim (Bool-cases (e.same x a)) [
    | inl hit ↦
        let f' : p x ≡ false = rw ((e.same_iff x a).0 hit) f in
        ground (arith, f', length-filter p xs)
    | inr miss ↦ ground (arith, miss, length-filter p xs, length-filter_lt p a xs)
  ]

  -- How often an element occurs.
  unfoldable pub count : A → List A → ℕ
  count a [] = 0
  count a (x ∷ xs) = let rest = count a xs in if e.same x a then suc rest else rest

  pub has-count : (a : A) (xs : List A) → has a xs ≡ ltb 0 (count a xs)
  unfolding has count
  has-count a [] = refl
  has-count a (x ∷ xs) = ground (arith, has-count a xs)

  pub count-append : (a : A) (xs ys : List A) → count a (xs ++ ys) ≡ count a xs + count a ys
  unfolding count
  count-append a [] ys = omega arith
  count-append a (x ∷ xs) ys = ground (arith, count-append a xs ys)

  pub count-filter :
      (p : A → Bool) (a : A) (xs : List A) → count a (filter p xs) ≡ (if p a then count a xs else 0)
  unfolding count
  count-filter p a [] = ground arith
  count-filter p a (x ∷ xs) = elim (Bool-cases (e.same x a)) [
    | inl hit ↦
        let t : p x ≡ p a = rw ((e.same_iff x a).0 hit) refl in ground (arith, count-filter p a xs)
    | inr miss ↦ ground (arith, miss, count-filter p a xs)
  ]

  pub count-distinct : (a : A) (xs : List A) → count a (distinct xs) ≡ (if has a xs then 1 else 0)
  unfolding has count distinct
  count-distinct a [] = refl
  count-distinct a (x ∷ xs) = ground (
    arith,
    count-distinct a xs,
    count-filter (λ y. not (e.same y x)) a (distinct xs),
    same_sym a x,
    same_sym x a,
  )
