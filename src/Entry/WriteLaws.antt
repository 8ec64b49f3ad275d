-- ===== src/Entry/WriteLaws.antt =====
-- Publishing and saving: the versions that `publishEntry` and `upsertEntryDraft` leave.
use mathlib.Core.Option
use boject_cms.Common.{
  ℕ, ◌+◌, ◌≤◌, ◌≡◌, refl, List, Option, none, some, arith, ◌∙◌, Option-cases, inl, inr,
}
use boject_cms.Entry.Version.{
  ContentStatus, draft, published, changed, archived, same_status, ContentEntryVersion, find_status,
  get_draft_version,
}
use boject_cms.Entry.Rows.{tally, one_if, VersionPatch}
use boject_cms.Entry.RowLaws.{find_status-hit, find_status-miss}
use boject_cms.Entry.RowSearch.{find_status-none}
use boject_cms.Entry.Database.{NewVersion, Database, DatabaseLaws}
use boject_cms.Entry.Effects.{
  delete_effect, update_effect, create_effect, HasRoom, leaving, nothing,
}
use boject_cms.Entry.Writes.{ContentOps, write_version}

-- The two slots: at most one of DRAFT and PUBLISHED, and CHANGED only beside PUBLISHED. Archived
-- versions are not counted.
pub record HasSlots {ℓ} {D : Type ℓ} (vs : List (ContentEntryVersion D)) : Type 0 where
  pub live_slot : tally draft vs + tally published vs ≤ 1
  pub beside : tally changed vs ≤ tally published vs

-- How many versions there are of each status.
pub record Counts {ℓ} {D : Type ℓ} (d p c a : ℕ) (vs : List (ContentEntryVersion D)) : Type 0 where
  pub drafts : tally draft vs ≡ d
  pub publisheds : tally published vs ≡ p
  pub changeds : tally changed vs ≡ c
  pub archiveds : tally archived vs ≡ a

module _ {D : Type 0} {db : Database D} (laws : DatabaseLaws db) (ops : ContentOps D) where
  -- The write of a version goes through, to versions with the given counts.
  abbrev pub Writes :
      ContentStatus
      → D
      → Option ℕ
      → Option (ContentEntryVersion D)
      → db.State
      → ℕ
      → ℕ
      → ℕ
      → ℕ
      → Type 0
  Writes st content at working s d p c a =
      (s' : db.State) × (write_version db ops working st content at s ≡ some s')
      × Counts d p c a (db.versions s')

  -- The patch that a write of a draft applies.
  abbrev pub patch_of : ContentStatus → D → Option ℕ → VersionPatch D
  patch_of st content at = record {
    status = st;
    published_at = Option.map some at;
    content = some (content, ops.extract_entry_title content);
  }

  abbrev pub new_of : ContentStatus → D → Option ℕ → NewVersion D
  new_of st content at = record {
    data_of = content;
    entry_title = ops.extract_entry_title content;
    status = st;
    published_at = at;
  }

  pub write_new :
      (st : ContentStatus) (content : D) (at : Option ℕ) (s : db.State)
      → HasRoom nothing st (db.versions s)
      → Writes st content at none s
          (one_if (same_status st draft) + tally draft (db.versions s))
          (one_if (same_status st published) + tally published (db.versions s))
          (one_if (same_status st changed) + tally changed (db.versions s))
          (one_if (same_status st archived) + tally archived (db.versions s))
  unfolding write_version
  write_new st content at s room =
      let (s', created, count) = create_effect laws (new_of st content at) s room in
      (
        s',
        created,
        record {
          drafts = count draft;
          publisheds = count published;
          changeds = count changed;
          archiveds = count archived;
        },
      )

  -- A draft or changed version found before is written over.
  pub write_over :
      (old st : ContentStatus) (v : ContentEntryVersion D) (content : D) (at : Option ℕ)
      (s : db.State) {d p c a : ℕ}
      → find_status old (db.versions s) ≡ some v
      → HasRoom (leaving old) st (db.versions s)
      → tally draft (db.versions s) + one_if (same_status st draft)
        ≡ d + one_if (same_status old draft)
      → tally published (db.versions s) + one_if (same_status st published)
        ≡ p + one_if (same_status old published)
      → tally changed (db.versions s) + one_if (same_status st changed)
        ≡ c + one_if (same_status old changed)
      → tally archived (db.versions s) + one_if (same_status st archived)
        ≡ a + one_if (same_status old archived)
      → Writes st content at (some v) s d p c a
  unfolding write_version
  write_over old st v content at s found room ed ep ec ea =
      let (s', updated, count) = update_effect laws old v (patch_of st content at) s found room in
      (
        s',
        updated,
        record {
          drafts = omega (arith, count draft);
          publisheds = omega (arith, count published);
          changeds = omega (arith, count changed);
          archiveds = omega (arith, count archived);
        },
      )

  -- Publishing writes one published version over the draft, or a new one: nothing else is left but
  -- archived versions.
  pub publish_first :
      (content : D) (at : Option ℕ) (s : db.State)
      → HasSlots (db.versions s)
      → tally published (db.versions s) ≡ 0
      → Writes published content at
          (get_draft_version (db.versions s))
          s
          0
          1
          0
          (tally archived (db.versions s))
  unfolding get_draft_version
  publish_first content at s i p0 =
      let no_changed = find_status-none changed (db.versions s) (omega arith) in
      rw no_changed (elim (Option-cases (find_status draft (db.versions s))) [
        | inl hd ↦
            let d0 = find_status-miss draft (db.versions s) hd in
            let (s', written, counts) = write_new published content at s (omega arith) in
            rw hd (s', written, omega arith)
        | inr (d, hd) ↦
            let (_, _, d1) = find_status-hit draft (db.versions s) d hd in
            rw hd (
              write_over draft published d content at s hd (omega arith) (omega arith) (omega arith)
                (omega arith) (omega arith))
      ])

  -- The published version is dropped first, so that its successor fits the index.
  pub publish_again :
      (content : D) (at : Option ℕ) (s : db.State) (p : ContentEntryVersion D)
      → HasSlots (db.versions s)
      → find_status published (db.versions s) ≡ some p
      → (s₁ : db.State) × (db.delete_version p.id s ≡ some s₁)
        × Writes published content at
            (get_draft_version (db.versions s))
            s₁
            0
            1
            0
            (tally archived (db.versions s))
  unfolding get_draft_version
  publish_again content at s p i hp =
      let (_, _, p1) = find_status-hit published (db.versions s) p hp in
      let (s₁, deleted, count, search) = delete_effect laws published p s hp in
      let no_draft = find_status-none draft (db.versions s) (omega arith) in
      (
        s₁,
        deleted,
        elim (Option-cases (find_status changed (db.versions s))) [
          | inl hc ↦
              let c0 = find_status-miss changed (db.versions s) hc in
              let (s₂, written, counts) = write_new published content at s₁ (record {
                drafts = omega (arith, count draft);
                publisheds = omega (arith, count published);
                changeds = omega (arith, count changed);
              }) in
              rw (hc, no_draft)
                (
                  s₂,
                  written,
                  record {
                    drafts = omega (arith, counts.drafts, count draft);
                    publisheds = omega (arith, counts.publisheds, count published);
                    changeds = omega (arith, counts.changeds, count changed);
                    archiveds = omega (arith, counts.archiveds, count archived);
                  },
                )
          | inr (c, hc) ↦
              let (_, _, c1) = find_status-hit changed (db.versions s) c hc in
              rw hc (
                write_over changed published c content at s₁
                  (search changed refl (omega arith) ∙ hc)
                  (record {
                    drafts = omega (arith, count draft);
                    publisheds = omega (arith, count published);
                    changeds = omega (arith, count changed);
                  })
                  (omega (arith, count draft)) (omega (arith, count published))
                  (omega (arith, count changed)) (omega (arith, count archived)))
        ],
      )
