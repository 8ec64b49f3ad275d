-- ===== src/SearchIndex/Working.antt =====
-- apps/cms/server/utils/buildEntrySearchDocument.ts: which document of an entry stands for the version
-- that the editor sees.
use boject_cms.Common.{
  Bool, true, false, map, filter, ◌==◌, Bool-cases, inl, inr, ◌≡◌, refl, ap, ◌∙◌, List, [], ◌∷◌,
  Option, none, some, arith, find?, ◌<|>◌,
}
use boject_cms.Content.Json.{Json}
use boject_cms.Entry.Version.{
  ContentStatus, draft, published, changed, archived, ContentEntryVersion, has_status,
  get_draft_version, get_published_version, get_version_for_context,
}
use boject_cms.SearchIndex.Document.{
  SearchDocument, Formats, EntryForSearch, is_indexable, indexable, working_version, same_version,
  to_search_document, document_of, build_entry_search_documents,
}
use boject_cms.SearchIndex.DocIds.{other_status}

first_of_three {ℓ} : {A : Type ℓ} (a b c : Option A) → (a <|> b <|> c) ≡ ((a <|> b) <|> c)
first_of_three none b c = refl
first_of_three (some a) b c = refl

abbrev pub not_archived : ContentStatus → Bool
not_archived archived = false
not_archived _ = true

same_version-elim :
    {N : Type 0} (v : ContentEntryVersion (Json N)) (o : Option (ContentEntryVersion (Json N)))
    → same_version v o ≡ elim o [ none ↦ false | some w ↦ v.id == w.id ]
same_version-elim v none = refl
same_version-elim v (some w) = refl

module _ {N : Type 0} where
  find-indexable :
      (st : ContentStatus) (vs : List (ContentEntryVersion (Json N)))
      → is_indexable st ≡ true
      → find? (has_status st) (indexable vs) ≡ find? (has_status st) vs
  find-indexable st [] t = refl
  find-indexable st (v ∷ vs) t = ground (arith, find-indexable st vs t, other_status v.status st)

  working_version-get_version_for_context :
      (versions : List (ContentEntryVersion (Json N)))
      → working_version versions ≡ get_version_for_context versions true
  unfolding working_version get_version_for_context get_draft_version get_published_version
  working_version-get_version_for_context versions =
      let c = find-indexable changed versions refl in
      let d = find-indexable draft versions refl in
      let q = find-indexable published versions refl in
      ap
        (λ o.
          o
          <|> find? (has_status draft) (indexable versions)
          <|> find? (has_status published) (indexable versions))
        c
      ∙ (ap
            (λ o.
              find? (has_status changed) versions
              <|> o
              <|> find? (has_status published) (indexable versions))
            d
          ∙ (ap
                (λ o.
                  find? (has_status changed) versions <|> find? (has_status draft) versions <|> o)
                q
              ∙ first_of_three (find? (has_status changed) versions)
                  (find? (has_status draft) versions) (find? (has_status published) versions)))

  -- Whether a version is the one that an editor is shown.
  abbrev pub is_shown : List (ContentEntryVersion (Json N)) → ContentEntryVersion (Json N) → Bool
  is_shown versions v = elim (get_version_for_context versions true) [
    | none ↦ false
    | some w ↦ v.id == w.id
  ]

  abbrev pub flagged : SearchDocument N → ContentStatus × Bool
  flagged d = (d.status, d.is_working_version)

  abbrev pub due :
      List (ContentEntryVersion (Json N)) → ContentEntryVersion (Json N) → ContentStatus × Bool
  due versions v = (v.status, is_shown versions v)

  module _ (formats : Formats N) (e : EntryForSearch N) where
    document-is_shown :
        (v : ContentEntryVersion (Json N))
        → (document_of formats e v).is_working_version ≡ is_shown e.versions v
    unfolding document_of to_search_document
    document-is_shown v =
        rw (working_version-get_version_for_context e.versions)
          (same_version-elim v (get_version_for_context e.versions true))

    marks :
        (vs : List (ContentEntryVersion (Json N)))
        → map flagged (map (document_of formats e) (indexable vs))
          ≡ map (due e.versions) (filter (λ v. not_archived v.status) vs)
    unfolding document_of to_search_document
    marks [] = refl
    marks (v ∷ vs) = elim (Bool-cases (is_indexable v.status)) [
      | inl kept ↦ rw (kept, document-is_shown v, marks vs) refl
      | inr dropped ↦ rw dropped (marks vs)
    ]

  -- The documents of an entry are those of its versions that are not archived, in order, each with the
  -- status of its version. A document is marked as the working one exactly when its version has the
  -- id of the version that an editor is shown: the changed one, else the draft, else the published one.
  pub build_entry_search_documents-is_shown :
      (formats : Formats N) (e : EntryForSearch N)
      → map flagged (build_entry_search_documents formats e)
        ≡ map (due e.versions) (filter (λ v. not_archived v.status) e.versions)
  unfolding build_entry_search_documents
  build_entry_search_documents-is_shown formats e = marks formats e e.versions
