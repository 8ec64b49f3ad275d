-- ===== src/Entry/RowSearch.antt =====
-- Finding a version by status: the answer does not depend on the order of the rows, nor on the
-- removal of a version with another status.
use mathlib.Core.List.{Permᴰ}
use mathlib.Core.Path.{subst}
use boject_cms.Common.{
  ◌≤◌, ◌≡◌, refl, false, List, [], ◌∷◌, none, some, Bool-cases, inl, inr, arith, ◌∙◌, eq_refl,
}
use boject_cms.Entry.Version.{ContentStatus, same_status, ContentEntryVersion, find_status}
use boject_cms.Entry.Rows.{tally, remove_row, UniqueIds}
use boject_cms.Entry.RowLaws.{
  tally-perm, find_status-hit, same_status_iff, remove_row_absent, other_id,
}

module _ {ℓ} {D : Type ℓ} where
  pub find_status-perm :
      (st : ContentStatus) {xs ys : List (ContentEntryVersion D)}
      → Permᴰ xs ys
      → tally st ys ≤ 1
      → find_status st xs ≡ find_status st ys
  find_status-perm st Permᴰ.nil h = refl
  find_status-perm st (Permᴰ.cons {b} {l₂} e p) h =
      rw e (elim (Bool-cases (same_status b.status st)) [
        | inl hit ↦ rw hit
        | inr miss ↦ rw miss (find_status-perm st p (ground arith))
      ])
  find_status-perm st (Permᴰ.swap {a} {b} {a'} {b'} e f) h = rw (e, f) (ground arith)
  find_status-perm st (Permᴰ.trans p q) h =
      find_status-perm st p (rw (tally-perm st q) h) ∙ find_status-perm st q h

  pub find_status-remove_row :
      (st t : ContentStatus) (vs : List (ContentEntryVersion D)) (v : ContentEntryVersion D)
      → UniqueIds vs
      → find_status st vs ≡ some v
      → same_status st t ≡ false
      → find_status t (remove_row v.id vs) ≡ find_status t vs
  find_status-remove_row st t [] v u h ne = refl
  find_status-remove_row st t (x ∷ vs) v (u, us) h ne =
      elim (Bool-cases (same_status x.status st)) [
        | inl hit ↦
            let same : x ≡ v = ground arith in
            let apart : same_status x.status t ≡ false =
              rw ((same_status_iff x.status st).0 hit) ne in
            subst (λ w. find_status t (remove_row w.id (x ∷ vs)) ≡ find_status t (x ∷ vs)) same
              (rw (eq_refl x.id, remove_row_absent x.id vs u, apart))
        | inr miss ↦
            let rest : find_status st vs ≡ some v = ground arith in
            rw (other_id x.id v.id vs u (find_status-hit st vs v rest).1)
              (rw (find_status-remove_row st t vs v us rest ne))
      ]

  pub find_status-some :
      (st : ContentStatus) (vs : List (ContentEntryVersion D))
      → 1 ≤ tally st vs
      → (v : ContentEntryVersion D) × (find_status st vs ≡ some v)
  find_status-some st [] h = absurd (omega arith)
  find_status-some st (x ∷ vs) h = elim (Bool-cases (same_status x.status st)) [
    | inl hit ↦ (x, rw hit)
    | inr miss ↦ rw miss (find_status-some st vs (ground arith))
  ]

  pub find_status-none :
      (st : ContentStatus) (vs : List (ContentEntryVersion D))
      → tally st vs ≡ 0
      → find_status st vs ≡ none
  find_status-none st [] h = refl
  find_status-none st (x ∷ vs) h = ground (arith, find_status-none st vs)
