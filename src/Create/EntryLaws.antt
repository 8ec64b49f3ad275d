-- ===== src/Create/EntryLaws.antt =====
-- apps/cms/server/utils/createEntry.ts: what an entry that was created is.
use boject_cms.Common.{
  if-true, if-false, ℕ, String, ◌==◌, Bool, true, false, ◌&&◌, ◌≡◌, refl, sym, ap, ◌∙◌, List, [],
  ◌∷◌, Option, none, some, arith, string_eq, eq_iff, Bool-cases, inl, inr, ◌⊎◌,
}
use boject_cms.FieldType.{text, number}
use boject_cms.Entry.Version.{ContentStatus, draft, published, changed, archived}
use boject_cms.Content.Json.{Json, null, bool, num, str, arr, obj, Fields, get, ok, create_error}
use boject_cms.Content.Options.{ContentField, apply_field_defaults}
use boject_cms.Content.Outcomes.{>>=-eq-ok, ok-inj, refuse_if-eq-ok}
use boject_cms.Content.Validate.{
  Platform, is_unset, validate_entry_data, extract_slug, extract_entry_title,
}
use boject_cms.Content.Enrich.{enrich_entry_data}
use boject_cms.Content.Validated.{All}
use boject_cms.Create.Slug.{slugify}
use boject_cms.Create.Entry.{
  NewEntry, entry_published, draft_sync, Committed, committed, rolled_back, EntryStore,
  status_or_draft, announcement_of, new_entry, TranslateOptions, names_entry_key, unique_options,
  DatabaseError, prisma_error, other_error, translate_prisma_error, conflicts, is_unique_type,
  assert_unique_field_values, validate_and_enrich_entry_data, settle_commit, insert_entry,
  create_entry,
}

-- A value that is neither absent nor empty.
abbrev pub IsGiven : {N : Type 0} → Option (Json N) → Json N → Type 0
IsGiven value v = (value ≡ some v) × (v ≡ null → ⊥) × (v ≡ str "" → ⊥)

-- A text or number field that is unique has no value that some version holds.
abbrev pub IsFree : {N E : Type 0} → EntryStore N E → Fields N → ContentField N → Type 0
IsFree {N} store entry f =
    f.unique ≡ true
    → (f.type ≡ text) ⊎ (f.type ≡ number)
    → (v : Json N) → IsGiven (get f.identifier entry) v
    → store.has_value f v ≡ false

-- What the one transaction writes with the entry, by the status that was asked for.
pub data IsWritten {N E : Type 0} (store : EntryStore N E) (now : ℕ) (new : NewEntry N) (e : E)
    : Option ContentStatus → Type 0 where
  as_published :
      new.status ≡ published
      → new.published_at ≡ some now
      → store.transaction new entry_published ≡ committed e
      → IsWritten store now new e (some published)
  as_default :
      new.status ≡ draft
      → new.published_at ≡ none
      → store.transaction new draft_sync ≡ committed e
      → IsWritten store now new e none
  as_other :
      (st : ContentStatus)
      → (st ≡ published → ⊥)
      → new.status ≡ st
      → new.published_at ≡ none
      → store.transaction new draft_sync ≡ committed e
      → IsWritten store now new e (some st)

-- How an entry came to be: from data that was validated, with a key that is not empty and that no entry
-- of the type has, in one transaction that writes the entry and its announcement.
pub record IsCreated {N E : Type 0} (p : Platform N) (store : EntryStore N E)
    (to_lower_case : String → String) (now : ℕ) (fields : List (ContentField N)) (raw : Fields N)
    (status : Option ContentStatus) (created : E) : Type 0 where
  pub seeded : Fields N
  pub validated : Fields N
  pub new : NewEntry N
  pub seeds : apply_field_defaults p.schemas raw fields ≡ ok seeded
  pub valid : validate_entry_data p seeded fields ≡ ok validated
  pub unique : All (IsFree store validated) fields
  pub holds : new.content ≡ enrich_entry_data store.load_identifiers validated fields
  pub of_title : new.entry_title ≡ extract_entry_title new.content fields
  pub of_key : new.entry_key ≡ slugify to_lower_case new.entry_title
  pub of_slug : new.slug ≡ extract_slug new.content fields
  pub some_key : (new.entry_key == "") ≡ false
  pub free_key : store.has_key new.entry_key ≡ false
  pub written : IsWritten store now new created status

refused_status :
    {A : Type 0} {status : ℕ} {message : String} {a : A} → create_error status message ≡ ok a → ⊥
refused_status h = cc

refused :
    {A : Type 0} (error : DatabaseError) (o : TranslateOptions) (a : A)
    → translate_prisma_error error o ≡ ok a
    → ⊥
unfolding translate_prisma_error
refused other_error o a h = cc
refused (prisma_error code target) o a h = ground arith

given_lem :
    {N : Type 0} (v : Json N) → (v ≡ null → ⊥) → (v ≡ str "" → ⊥) → is_unset (some v) ≡ false
given_lem null h k = absurd (h refl)
given_lem (str s) h k = elim (Bool-cases (s == "")) [
  | inl e ↦ absurd (k (ap str ((eq_iff s "").0 e)))
  | inr e ↦ e
]
given_lem (bool _) h k = refl
given_lem (num _) h k = refl
given_lem (arr _) h k = refl
given_lem (obj _) h k = refl

module _ {N E : Type 0} (p : Platform N) (store : EntryStore N E) where
  conflicts_lem :
      (f : ContentField N) (value : Option (Json N)) (v : Json N)
      → conflicts p store f value ≡ false
      → IsGiven value v
      → store.has_value f v ≡ false
  conflicts_lem f value v h (given, some_value, not_empty) =
      let c : conflicts p store f (some v) ≡ false = ap (conflicts p store f) (sym given) ∙ h in
      ground (arith, given_lem v some_value not_empty)

  free_lem :
      (entry : Fields N) (f : ContentField N)
      → ((f.unique && is_unique_type f.type) && conflicts p store f (get f.identifier entry))
        ≡ false
      → IsFree store entry f
  free_lem entry f h u (inl t) v g =
      conflicts_lem f (get f.identifier entry) v (ground (arith, u, ap is_unique_type t)) g
  free_lem entry f h u (inr t) v g =
      conflicts_lem f (get f.identifier entry) v (ground (arith, u, ap is_unique_type t)) g

  All-IsFree :
      (entry : Fields N) (fs : List (ContentField N)) (b : Bool)
      → assert_unique_field_values p store entry fs ≡ ok b
      → All (IsFree store entry) fs
  unfolding assert_unique_field_values
  All-IsFree entry [] b h = tt
  All-IsFree entry (f ∷ fs) b h =
      elim (Bool-cases
        ((f.unique && is_unique_type f.type) && conflicts p store f (get f.identifier entry))) [
          | inl taken ↦ absurd (ground (arith, taken))
          | inr free ↦
              let step =
                if-false
                  ((f.unique && is_unique_type f.type)
                    && conflicts p store f (get f.identifier entry))
                  _ _ free in
              (free_lem entry f free, All-IsFree entry fs b (sym step ∙ h))
        ]

  written_lem :
      (to_lower_case : String → String) (now : ℕ) (fields : List (ContentField N))
      (enriched : Fields N) (created : E) (status : Option ContentStatus)
      → let new = new_entry p store to_lower_case (status_or_draft status) now fields enriched in
        store.transaction new (announcement_of new.status) ≡ committed created
        → IsWritten store now new created status
  written_lem l now fields e c none h = as_default refl refl h
  written_lem l now fields e c (some published) h = as_published refl refl h
  written_lem l now fields e c (some draft) h = as_other draft (λ x. cc) refl refl h
  written_lem l now fields e c (some changed) h = as_other changed (λ x. cc) refl refl h
  written_lem l now fields e c (some archived) h = as_other archived (λ x. cc) refl refl h

  settled : (c : Committed E) (e : E) → settle_commit p store c ≡ ok e → c ≡ committed e
  unfolding settle_commit
  settled (committed e') e h = ground (arith, ok-inj e' e h)
  settled (rolled_back other_error) e h = absurd (refused other_error (unique_options p store) e h)
  settled (rolled_back (prisma_error code target)) e h =
      elim (Bool-cases (names_entry_key p store (prisma_error code target))) [
        | inl raced ↦ absurd (
            refused_status
              (sym (if-true (names_entry_key p store (prisma_error code target)) _ _ raced) ∙ h))
        | inr other ↦ absurd (
            refused (prisma_error code target) (unique_options p store) e
              (sym (if-false (names_entry_key p store (prisma_error code target)) _ _ other) ∙ h))
      ]

  insert_lem :
      (new : NewEntry N) (created : E)
      → insert_entry p store new ≡ ok created
      → ((new.entry_key == "") ≡ false)
        × (store.has_key new.entry_key ≡ false)
        × (store.transaction new (announcement_of new.status) ≡ committed created)
  unfolding insert_entry
  insert_lem new created h =
      let (key, l) = refuse_if-eq-ok (new.entry_key == "") _ _ created h in
      elim (Bool-cases (store.has_key new.entry_key)) [
        | inl taken ↦
            absurd (refused_status (sym (if-true (store.has_key new.entry_key) _ _ taken) ∙ l))
        | inr free ↦ (
          key,
          free,
          settled (store.transaction new (announcement_of new.status)) created
              (sym (if-false (store.has_key new.entry_key) _ _ free) ∙ l),
        )
      ]

  validated_lem :
      (seeded enriched : Fields N) (fields : List (ContentField N))
      → validate_and_enrich_entry_data p store seeded fields ≡ ok enriched
      → (validated : Fields N) × (validate_entry_data p seeded fields ≡ ok validated)
        × All (IsFree store validated) fields
        × (enriched ≡ enrich_entry_data store.load_identifiers validated fields)
  unfolding validate_and_enrich_entry_data
  validated_lem seeded enriched fields h =
      let (validated, w, k) = >>=-eq-ok (validate_entry_data p seeded fields) _ enriched h in
      let (b, u, e) =
        >>=-eq-ok (assert_unique_field_values p store validated fields) _ enriched k in
      (validated, w, All-IsFree validated fields b u, sym (ok-inj _ enriched e))

  -- An entry is created only from data that was validated, in which no unique field of type text or
  -- number has a value, other than null and the empty text, that some version holds. Its key is the
  -- slug of its title, is not empty and was free. One transaction writes it: as published, with the time
  -- and the event of a publication, if that status was asked for; else with the status that was asked
  -- for, draft by default, without a time and with a draft sync.
  pub create_entry-IsCreated :
      (to_lower_case : String → String) (now : ℕ) (fields : List (ContentField N)) (raw : Fields N)
      (status : Option ContentStatus) (created : E)
      → create_entry p store to_lower_case now fields raw status ≡ ok created
      → IsCreated p store to_lower_case now fields raw status created
  unfolding create_entry
  create_entry-IsCreated to_lower_case now fields raw status created h =
      let (seeded, s, i) = >>=-eq-ok (apply_field_defaults p.schemas raw fields) _ created h in
      let (enriched, v, j) =
        >>=-eq-ok (validate_and_enrich_entry_data p store seeded fields) _ created i in
      let (validated, w, u, e) = validated_lem seeded enriched fields v in
      let (key, free, t) =
        insert_lem (new_entry p store to_lower_case (status_or_draft status) now fields enriched)
          created j in
      record {
        seeded = seeded;
        validated = validated;
        new = new_entry p store to_lower_case (status_or_draft status) now fields enriched;
        seeds = s;
        valid = w;
        unique = u;
        holds = e;
        of_title = refl;
        of_key = refl;
        of_slug = refl;
        some_key = key;
        free_key = free;
        written = written_lem to_lower_case now fields enriched created status t;
      }
