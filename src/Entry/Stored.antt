-- ===== src/Entry/Stored.antt =====
-- What a write stores: the version that `publishEntry` and `upsertEntryDraft` leave holds the content.
use mathlib.Core.List.{Permᴰ}
use mathlib.Core.Path.{subst}
use mathlib.Core.Option.{some-injective}
use boject_cms.Common.{
  ℕ, ◌≤◌, String, ◌==◌, ◌≡◌, refl, sym, ◌∙◌, true, false, List, [], ◌∷◌, Option, none, some, arith,
  Bool-cases, inl, inr,
}
use boject_cms.Entry.Version.{ContentStatus, same_status, ContentEntryVersion, find_status}
use boject_cms.Entry.Rows.{VersionPatch, tally, has_row, patched, patch_row, index_ok}
use boject_cms.Entry.RowLaws.{tally-perm, find_status-hit, same_status_refl}
use boject_cms.Entry.RowSearch.{find_status-perm}
use boject_cms.Entry.Database.{NewVersion, row_of, Database, DatabaseLaws}
use boject_cms.Entry.Writes.{ContentOps, write_version}

find_status-behind :
    {D : Type 0} (st : ContentStatus) (x w : ContentEntryVersion D)
    (ws : List (ContentEntryVersion D))
    → find_status st ws ≡ some w
    → tally st (x ∷ ws) ≤ 1
    → find_status st (x ∷ ws) ≡ some w
find_status-behind st x w ws found few =
    let (_, _, one) = find_status-hit st ws w found in
    elim (Bool-cases (same_status x.status st)) [
      | inl clash ↦ absurd (let two = rw clash at few in omega arith)
      | inr apart ↦ rw apart found
    ]

module _ {D : Type 0} (i : String) (p : VersionPatch D) where
  patch_row-skip :
      (x y : ContentEntryVersion D) (vs : List (ContentEntryVersion D))
      → (x.id == i) ≡ false
      → find_status p.status (patch_row i p vs) ≡ some (patched p y)
      → tally p.status (patch_row i p (x ∷ vs)) ≤ 1
      → find_status p.status (patch_row i p (x ∷ vs)) ≡ some (patched p y)
  patch_row-skip x y vs there found few =
      rw there
        (find_status-behind p.status x (patched p y) (patch_row i p vs) found (rw there at few))

  -- The row that a patch wrote is found under its new status.
  find_status-patch_row :
      (vs : List (ContentEntryVersion D))
      → has_row i vs ≡ true
      → tally p.status (patch_row i p vs) ≤ 1
      → (x : ContentEntryVersion D) × (find_status p.status (patch_row i p vs) ≡ some (patched p x))
  find_status-patch_row [] h few = cc
  find_status-patch_row (x ∷ vs) h few = elim (Bool-cases (x.id == i)) [
    | inl here ↦ (x, rw (here, same_status_refl p.status) refl)
    | inr there ↦
        let (y, found) = find_status-patch_row vs (ground arith) (omega arith) in
        (y, patch_row-skip x y vs there found few)
  ]

module _ {D : Type 0} {db : Database D} (laws : DatabaseLaws db) where
  update_search :
      (i : String) (p : VersionPatch D) (s s' : db.State)
      → db.update_version i p s ≡ some s'
      → tally p.status (db.versions s') ≤ 1
      → (x : ContentEntryVersion D) × (find_status p.status (db.versions s') ≡ some (patched p x))
  update_search i p s s' e few = elim (Bool-cases (has_row i (db.versions s))) [
    | inr missing ↦ let no = laws.update_missing i p s missing in cc
    | inl there ↦ elim (Bool-cases (index_ok (patch_row i p (db.versions s)))) [
      | inr conflict ↦ let no = laws.update_conflict i p s conflict in cc
      | inl fits ↦
          let (t, made, perm) = laws.update_lem i p s there fits in
          let same = some-injective _ _ (sym made ∙ e) in
          let q = subst (λ u. Permᴰ (db.versions u) (patch_row i p (db.versions s))) same perm in
          let few' = subst (λ n. n ≤ 1) (tally-perm p.status q) few in
          let (x, found) = find_status-patch_row i p (db.versions s) there few' in
          (x, find_status-perm p.status q few' ∙ found)
    ]
  ]

  create_search :
      (v : NewVersion D) (s s' : db.State)
      → db.create_version v s ≡ some s'
      → tally v.status (db.versions s') ≤ 1
      → (i : String) × (find_status v.status (db.versions s') ≡ some (row_of v i))
  create_search v s s' e few = elim (Bool-cases (index_ok (row_of v "" ∷ db.versions s))) [
    | inr conflict ↦ let no = laws.create_conflict v s (λ i. conflict) in cc
    | inl fits ↦
        let (i, t, made, perm) = laws.create_lem v s (λ i. fits) in
        let same = some-injective _ _ (sym made ∙ e) in
        let q = subst (λ u. Permᴰ (db.versions u) (row_of v i ∷ db.versions s)) same perm in
        let few' = subst (λ n. n ≤ 1) (tally-perm v.status q) few in
        (i, find_status-perm v.status q few' ∙ rw (same_status_refl v.status) refl)
  ]

  -- The version of a status holds the content, with the title that belongs to it, and the time of
  -- publication where one was written.
  pub record Holds (ops : ContentOps D) (st : ContentStatus) (content : D) (at : Option ℕ)
      (s : db.State) : Type 0 where
    pub row : ContentEntryVersion D
    pub found : find_status st (db.versions s) ≡ some row
    pub same_data : row.data_of ≡ content
    pub same_title : row.entry_title ≡ ops.extract_entry_title content
    pub same_time : (t : ℕ) → at ≡ some t → row.published_at ≡ some t

  pub write_version-Holds :
      (ops : ContentOps D) (working : Option (ContentEntryVersion D)) (st : ContentStatus)
      (content : D) (at : Option ℕ) (s s' : db.State)
      → write_version db ops working st content at s ≡ some s'
      → tally st (db.versions s') ≤ 1
      → Holds ops st content at s'
  unfolding write_version
  write_version-Holds ops (some d) st content at s s' e few =
      let (x, found) = update_search d.id _ s s' e few in
      record {
        row = _;
        found = found;
        same_data = refl;
        same_title = refl;
        same_time = λ t h. rw h refl;
      }
  write_version-Holds ops none st content at s s' e few =
      let (i, found) = create_search _ s s' e few in
      record { row = _; found = found; same_data = refl; same_title = refl; same_time = λ t h. h }

  pub Holds-perm :
      (ops : ContentOps D) (st : ContentStatus) (content : D) (at : Option ℕ) (s s' : db.State)
      → Permᴰ (db.versions s') (db.versions s)
      → tally st (db.versions s) ≤ 1
      → Holds ops st content at s
      → Holds ops st content at s'
  Holds-perm ops st content at s s' q few h = record {
    row = h.row;
    found = find_status-perm st q few ∙ h.found;
    same_data = h.same_data;
    same_title = h.same_title;
    same_time = h.same_time;
  }
