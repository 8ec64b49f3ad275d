-- ===== src/Entry/RowLaws.antt =====
-- Counting version rows by status: removal, patching and order.
use mathlib.Core.List.{Permᴰ}
use mathlib.Core.Path.{subst}
use boject_cms.Common.{
  ◌+◌, ◌≤◌, String, ◌==◌, ◌≡◌, refl, true, false, List, [], ◌∷◌, none, some, Bool-cases, inl, inr,
  arith, eq_iff, eq_refl, ◌∙◌, ◌↔◌, ap,
}
use boject_cms.Entry.Version.{
  ContentStatus, draft, published, changed, archived, same_status, ContentEntryVersion, find_status,
}
use boject_cms.Entry.Rows.{VersionPatch, one_if, tally, has_row, remove_row, patch_row, UniqueIds}

pub same_status_iff : (s t : ContentStatus) → (same_status s t ≡ true) ↔ (s ≡ t)
same_status_iff draft t = ground arith
same_status_iff published t = ground arith
same_status_iff changed t = ground arith
same_status_iff archived t = ground arith

pub same_status_refl : (s : ContentStatus) → same_status s s ≡ true
same_status_refl s = (same_status_iff s s).1 refl

module _ {ℓ} {D : Type ℓ} where
  pub tally-perm :
      (st : ContentStatus) {xs ys : List (ContentEntryVersion D)}
      → Permᴰ xs ys
      → tally st xs ≡ tally st ys
  tally-perm st Permᴰ.nil = refl
  tally-perm st (Permᴰ.cons e p) = rw (e, tally-perm st p)
  tally-perm st (Permᴰ.swap e f) = rw (e, f) (omega arith)
  tally-perm st (Permᴰ.trans p q) = tally-perm st p ∙ tally-perm st q

  pub remove_row_absent :
      (i : String) (vs : List (ContentEntryVersion D)) → has_row i vs ≡ false → remove_row i vs ≡ vs
  remove_row_absent i [] h = refl
  remove_row_absent i (v ∷ vs) h = ground (arith, remove_row_absent i vs)

  patch_row_absent :
      (i : String) (p : VersionPatch D) (vs : List (ContentEntryVersion D))
      → has_row i vs ≡ false
      → patch_row i p vs ≡ vs
  patch_row_absent i p [] h = refl
  patch_row_absent i p (v ∷ vs) h = ground (arith, patch_row_absent i p vs)

  -- What a hit of `find` says.
  pub find_status-hit :
      (st : ContentStatus) (vs : List (ContentEntryVersion D)) (v : ContentEntryVersion D)
      → find_status st vs ≡ some v
      → (v.status ≡ st) × (has_row v.id vs ≡ true) × (1 ≤ tally st vs)
  find_status-hit st [] v h = cc
  find_status-hit st (x ∷ vs) v h =
      ground (arith, same_status_iff x.status st, eq_refl v.id, find_status-hit st vs v)

  pub find_status-miss :
      (st : ContentStatus) (vs : List (ContentEntryVersion D))
      → find_status st vs ≡ none
      → tally st vs ≡ 0
  find_status-miss st [] h = refl
  find_status-miss st (x ∷ vs) h = ground (arith, find_status-miss st vs)

  -- Two rows with different ids: the head is not the row that the tail holds.
  pub other_id :
      (i j : String) (vs : List (ContentEntryVersion D))
      → has_row i vs ≡ false
      → has_row j vs ≡ true
      → (i == j) ≡ false
  other_id i j vs h k = elim (Bool-cases (i == j)) [
    | inl e ↦ let same = (eq_iff i j).0 e in absurd (cc (ap (λ s. has_row s vs) same))
    | inr e ↦ e
  ]

  pub tally-remove_row :
      (st st' : ContentStatus) (vs : List (ContentEntryVersion D)) (v : ContentEntryVersion D)
      → UniqueIds vs
      → find_status st vs ≡ some v
      → tally st' (remove_row v.id vs) + one_if (same_status st st') ≡ tally st' vs
  tally-remove_row st st' [] v u h = cc
  tally-remove_row st st' (x ∷ vs) v (u, us) h = elim (Bool-cases (same_status x.status st)) [
    | inl hit ↦
        let same : x ≡ v = ground arith in
        rw (← (same_status_iff x.status st).0 hit) (
          subst
            (λ w.
              tally st' (remove_row w.id (x ∷ vs)) + one_if (same_status x.status st')
              ≡ tally st' (x ∷ vs))
            same (rw (eq_refl x.id, remove_row_absent x.id vs u) (omega arith)))
    | inr miss ↦
        let rest : find_status st vs ≡ some v = ground arith in
        rw (other_id x.id v.id vs u (find_status-hit st vs v rest).1)
          (omega (arith, tally-remove_row st st' vs v us rest))
  ]

  pub tally-patch_row :
      (st st' : ContentStatus) (p : VersionPatch D) (vs : List (ContentEntryVersion D))
      (v : ContentEntryVersion D)
      → UniqueIds vs
      → find_status st vs ≡ some v
      → tally st' (patch_row v.id p vs) + one_if (same_status st st')
        ≡ tally st' vs + one_if (same_status p.status st')
  tally-patch_row st st' p [] v u h = cc
  tally-patch_row st st' p (x ∷ vs) v (u, us) h = elim (Bool-cases (same_status x.status st)) [
    | inl hit ↦
        let same : x ≡ v = ground arith in
        rw (← (same_status_iff x.status st).0 hit) (
          subst
            (λ w.
              tally st' (patch_row w.id p (x ∷ vs)) + one_if (same_status x.status st')
              ≡ tally st' (x ∷ vs) + one_if (same_status p.status st'))
            same (rw (eq_refl x.id, patch_row_absent x.id p vs u) (omega arith)))
    | inr miss ↦
        let rest : find_status st vs ≡ some v = ground arith in
        rw (other_id x.id v.id vs u (find_status-hit st vs v rest).1)
          (omega (arith, tally-patch_row st st' p vs v us rest))
  ]
