-- ===== src/Entry/Effects.antt =====
-- What each write of the database does to the number of versions with each status.
use boject_cms.Common.{ℕ, ◌+◌, ◌≤◌, ◌≡◌, true, false, List, ◌∷◌, some, arith, ◌∙◌}
use boject_cms.Entry.Version.{
  ContentStatus, draft, published, changed, same_status, ContentEntryVersion, find_status,
}
use boject_cms.Entry.Rows.{VersionPatch, one_if, tally, patch_row, index_ok}
use boject_cms.Entry.RowLaws.{tally-perm, find_status-hit, tally-remove_row, tally-patch_row}
use boject_cms.Entry.RowSearch.{find_status-perm, find_status-remove_row}
use boject_cms.Entry.Database.{NewVersion, row_of, Database, DatabaseLaws}

-- Room in the index for a row of status `new`, where `old` of the status tells what leaves.
pub record HasRoom {ℓ} {D : Type ℓ} (old : ContentStatus → ℕ) (new : ContentStatus)
    (vs : List (ContentEntryVersion D)) : Type 0 where
  pub drafts : tally draft vs + one_if (same_status new draft) ≤ 1 + old draft
  pub publisheds : tally published vs + one_if (same_status new published) ≤ 1 + old published
  pub changeds : tally changed vs + one_if (same_status new changed) ≤ 1 + old changed

abbrev pub leaving : ContentStatus → ContentStatus → ℕ
leaving st t = one_if (same_status st t)

abbrev pub nothing : ContentStatus → ℕ
nothing t = 0

index_ok_of_le {ℓ} :
    {D : Type ℓ} (vs : List (ContentEntryVersion D))
    → tally draft vs ≤ 1
    → tally published vs ≤ 1
    → tally changed vs ≤ 1
    → index_ok vs ≡ true
index_ok_of_le vs d p c = ground arith

module _ {D : Type 0} {db : Database D} (laws : DatabaseLaws db) where
  pub delete_effect :
      (st : ContentStatus) (v : ContentEntryVersion D) (s : db.State)
      → find_status st (db.versions s) ≡ some v
      → (s' : db.State) × (db.delete_version v.id s ≡ some s')
        × ((t : ContentStatus)
            → tally t (db.versions s') + one_if (same_status st t) ≡ tally t (db.versions s))
        × ((t : ContentStatus)
            → same_status st t ≡ false
            → tally t (db.versions s) ≤ 1
            → find_status t (db.versions s') ≡ find_status t (db.versions s))
  delete_effect st v s h =
      let (_, here, _) = find_status-hit st (db.versions s) v h in
      let (s', deleted, p) = laws.delete_lem v.id s here in
      let count =
        λ (t : ContentStatus). tally-remove_row st t (db.versions s) v (laws.unique_ids s) h in
      (
        s',
        deleted,
        λ t. rw (tally-perm t p) (count t),
        λ t ne few.
            find_status-perm t p (omega (arith, count t))
            ∙ find_status-remove_row st t (db.versions s) v (laws.unique_ids s) h ne,
      )

  pub update_effect :
      (st : ContentStatus) (v : ContentEntryVersion D) (p : VersionPatch D) (s : db.State)
      → find_status st (db.versions s) ≡ some v
      → HasRoom (leaving st) p.status (db.versions s)
      → (s' : db.State) × (db.update_version v.id p s ≡ some s')
        × ((t : ContentStatus)
            → tally t (db.versions s') + one_if (same_status st t)
              ≡ tally t (db.versions s) + one_if (same_status p.status t))
  update_effect st v p s h ix =
      let (_, here, _) = find_status-hit st (db.versions s) v h in
      let (s', updated, q) = laws.update_lem v.id p s here (
        index_ok_of_le (patch_row v.id p (db.versions s))
          (omega (arith, tally-patch_row st draft p (db.versions s) v (laws.unique_ids s) h))
          (omega (arith, tally-patch_row st published p (db.versions s) v (laws.unique_ids s) h))
          (omega (arith, tally-patch_row st changed p (db.versions s) v (laws.unique_ids s) h))) in
      (s', updated, λ t. rw (tally-perm t q) (tally-patch_row st t p _ v (laws.unique_ids s) h))

  pub create_effect :
      (v : NewVersion D) (s : db.State)
      → HasRoom nothing v.status (db.versions s)
      → (s' : db.State) × (db.create_version v s ≡ some s')
        × ((t : ContentStatus)
            → tally t (db.versions s') ≡ one_if (same_status v.status t) + tally t (db.versions s))
  create_effect v s ix =
      let (i, s', created, p) = laws.create_lem v s (λ i.
        index_ok_of_le (row_of v i ∷ db.versions s) (omega arith) (omega arith) (omega arith)) in
      (s', created, λ t. tally-perm t p)
