-- ===== src/SearchIndex/Converge.antt =====
-- apps/cms/server/utils/syncToSearchIndex.ts: what a reconciliation leaves in the index.
use mathlib.Core.Option
use mathlib.Core.Path.{subst}
use boject_cms.Common.{
  if-true, if-false, neither, String, ◌==◌, Bool, true, false, ◌&&◌, not, ◌≡◌, refl, sym, ap, ◌∙◌,
  List, [], ◌∷◌, map, Option, none, some, arith, if◌then◌else◌, string_eq, has, Bool-cases, inl,
  inr, eq_iff, eq_refl, has-filter,
}
use boject_cms.Content.Json.{Json}
use boject_cms.Entry.Version.{
  ContentStatus, draft, published, changed, archived, same_status, ContentEntryVersion,
}
use boject_cms.SearchIndex.Document.{
  SearchDocument, Formats, EntryForSearch, search_doc_id, is_indexable, indexable, document_of,
  to_search_document, build_entry_search_documents,
}
use boject_cms.SearchIndex.DocIds.{search_doc_id-same_status, other_status}
use boject_cms.SearchIndex.Reconcile.{
  latest, SearchEngine, EngineLaws, add_some, delete_some, all_keys, ids_of, stale_keys,
  reconcile_entry,
}

-- The version of a status: the last one, if there are several.
abbrev pub last_with :
    {N : Type 0}
    → ContentStatus
    → List (ContentEntryVersion (Json N))
    → Option (ContentEntryVersion (Json N))
    → Option (ContentEntryVersion (Json N))
last_with st [] old = old
last_with st (v ∷ vs) old = last_with st vs (if same_status v.status st then some v else old)

both_false : (a b : Bool) → b ≡ false → (a && b) ≡ false
both_false a b h = ground arith

not_listed :
    (k i : String) (ks : List String) → has k ks ≡ true → has i ks ≡ false → (k == i) ≡ false
not_listed k i ks h o = elim (Bool-cases (k == i)) [
  | inl same ↦ absurd (ground (arith, ap (λ x. has x ks) ((eq_iff k i).0 same), h, o))
  | inr f ↦ f
]

module _ {N : Type 0} where
  latest_absent :
      (i : String) (ds : List (SearchDocument N)) (old : Option (SearchDocument N))
      → has i (map (λ d. d.id) ds) ≡ false
      → latest i ds old ≡ old
  unfolding has
  latest_absent i [] old h = refl
  latest_absent i (d ∷ ds) old h = ground (arith, latest_absent i ds old)

  latest_present :
      (i : String) (ds : List (SearchDocument N)) (old new : Option (SearchDocument N))
      → has i (map (λ d. d.id) ds) ≡ true
      → latest i ds old ≡ latest i ds new
  unfolding has
  latest_present i [] old new h = absurd (ground arith)
  latest_present i (d ∷ ds) old new h = elim (Bool-cases (has i (map (λ d. d.id) ds))) [
    | inl more ↦ latest_present i ds _ _ more
    | inr last ↦
        let here : (d.id == i) ≡ true = ground (arith, h, last) in
        ap (λ b. latest i ds (if b then some d else old)) here
        ∙ ap (λ b. latest i ds (if b then some d else new)) (sym here)
  ]

  module _ (formats : Formats N) (e : EntryForSearch N) (st : ContentStatus) where
    abbrev doc : ContentEntryVersion (Json N) → SearchDocument N
    doc = document_of formats e

    abbrev key : String
    key = search_doc_id e.id st

    -- A version replaces the one before it, as its document does under the key.
    replaced :
        (v : ContentEntryVersion (Json N)) (old : Option (ContentEntryVersion (Json N)))
        → (if (doc v).id == key then some (doc v) else Option.map doc old)
          ≡ Option.map doc (if same_status v.status st then some v else old)
    unfolding document_of to_search_document
    replaced v old = elim (Bool-cases (same_status v.status st)) [
      | inl t ↦
          if-true ((doc v).id == key) _ _ (search_doc_id-same_status e.id v.status st ∙ t)
          ∙ ap (Option.map doc) (sym (if-true (same_status v.status st) _ _ t))
      | inr f ↦
          if-false ((doc v).id == key) _ _ (search_doc_id-same_status e.id v.status st ∙ f)
          ∙ ap (Option.map doc) (sym (if-false (same_status v.status st) _ _ f))
    ]

    latest-map :
        (vs : List (ContentEntryVersion (Json N))) (old : Option (ContentEntryVersion (Json N)))
        → is_indexable st ≡ true
        → latest key (map doc (indexable vs)) (Option.map doc old)
          ≡ Option.map doc (last_with st vs old)
    latest-map [] old h = refl
    latest-map (v ∷ vs) old h = elim (Bool-cases (is_indexable v.status)) [
      | inl t ↦
          ap (λ l. latest key (map doc l) (Option.map doc old))
            (if-true (is_indexable v.status) _ _ t)
          ∙ (ap (latest key (map doc (indexable vs))) (replaced v old)
              ∙ latest-map vs (if same_status v.status st then some v else old) h)
      | inr f ↦
          let other = other_status v.status st f h in
          ap (λ l. latest key (map doc l) (Option.map doc old))
            (if-false (is_indexable v.status) _ _ f)
          ∙ (latest-map vs old h
              ∙ ap (λ b. Option.map doc (last_with st vs (if b then some v else old))) (sym other))
    ]

  module _ (engine : SearchEngine N) (laws : EngineLaws engine) (formats : Formats N) where
    document-add_some :
        (i : String) (ds : List (SearchDocument N)) (s : engine.State)
        → engine.document i (add_some engine formats ds s) ≡ latest i ds (engine.document i s)
    unfolding add_some
    document-add_some i [] s = refl
    document-add_some i (d ∷ ds) s = laws.add_lem i (d ∷ ds) s

    document-delete_some :
        (i : String) (is : List String) (s : engine.State)
        → engine.document i (delete_some engine formats is s)
          ≡ (if has i is then none else engine.document i s)
    unfolding delete_some has
    document-delete_some i [] s = refl
    document-delete_some i (j ∷ is) s = laws.delete_lem i (j ∷ is) s

    key_listed :
        (id : String) (st : ContentStatus)
        → is_indexable st ≡ true
        → has (search_doc_id id st) (all_keys engine formats id) ≡ true
    unfolding has
    key_listed id draft t = ground (arith, eq_refl (search_doc_id id draft))
    key_listed id changed t = ground (arith, eq_refl (search_doc_id id changed))
    key_listed id published t = ground (arith, eq_refl (search_doc_id id published))
    key_listed id archived t = absurd (ground arith)

    own_keys :
        (e : EntryForSearch N) (i : String) (vs : List (ContentEntryVersion (Json N)))
        → has i (all_keys engine formats e.id) ≡ false
        → has i (ids_of engine formats (map (document_of formats e) (indexable vs))) ≡ false
    unfolding has document_of to_search_document
    own_keys e i [] other = refl
    own_keys e i (v ∷ vs) other = elim (Bool-cases (is_indexable v.status)) [
      | inl t ↦
          ap (λ l. has i (ids_of engine formats (map (document_of formats e) l)))
            (if-true (is_indexable v.status) _ _ t)
          ∙ neither (search_doc_id e.id v.status == i) _
              (not_listed (search_doc_id e.id v.status) i (all_keys engine formats e.id)
                (key_listed e.id v.status t) other)
              (own_keys e i vs other)
      | inr f ↦
          ap (λ l. has i (ids_of engine formats (map (document_of formats e) l)))
            (if-false (is_indexable v.status) _ _ f)
          ∙ own_keys e i vs other
    ]

    module _ (e : EntryForSearch N) (s : engine.State) where
      abbrev docs : List (SearchDocument N)
      docs = map (document_of formats e) (indexable e.versions)

      after_entry :
          (i : String)
          → engine.document i (reconcile_entry engine formats e.id (some e) s) ≡ (
              if not (has i (ids_of engine formats docs)) && has i (all_keys engine formats e.id)
              then none
              else latest i docs (engine.document i s))
      unfolding reconcile_entry build_entry_search_documents
      after_entry i =
          document-delete_some i (stale_keys engine formats e.id docs)
            (add_some engine formats docs s)
          ∙ (ap (λ b. if b then none else engine.document i (add_some engine formats docs s))
                (has-filter (λ k. not (has k (ids_of engine formats docs))) i
                  (all_keys engine formats e.id))
              ∙ ap
                  (λ o.
                    if not (has i (ids_of engine formats docs))
                      && has i (all_keys engine formats e.id)
                    then none
                    else o)
                  (document-add_some i docs s))

      at_key :
          (st : ContentStatus)
          → is_indexable st ≡ true
          → engine.document (search_doc_id e.id st) (reconcile_entry engine formats e.id (some e) s)
            ≡ Option.map (document_of formats e) (last_with st e.versions none)
      at_key st t =
          let k = search_doc_id e.id st in
          elim (Bool-cases (has k (ids_of engine formats docs))) [
            | inl there ↦
                after_entry k
                ∙ (if-false _ none _ (ap (λ b. not b && has k (all_keys engine formats e.id)) there)
                    ∙ (latest_present k docs _ none there
                        ∙ latest-map formats e st e.versions none t))
            | inr gone ↦
                after_entry k
                ∙ (if-true _ none _ (
                      ap (λ b. not b && has k (all_keys engine formats e.id)) gone
                      ∙ key_listed e.id st t)
                    ∙ (sym (latest_absent k docs none gone)
                        ∙ latest-map formats e st e.versions none t))
          ]

      elsewhere :
          (i : String)
          → has i (all_keys engine formats e.id) ≡ false
          → engine.document i (reconcile_entry engine formats e.id (some e) s) ≡ engine.document i s
      elsewhere i other =
          after_entry i
          ∙ (if-false _ none _ (both_false (not (has i (ids_of engine formats docs))) _ other)
              ∙ latest_absent i docs _ (own_keys e i e.versions other))

    -- With an engine that replaces documents by their ids, and an entry of the id that was asked for,
    -- after a reconciliation the index holds, under the key of each of the three statuses, the document
    -- of the entry's version of that status, the last if there are several, and nothing where it has
    -- none or where the entry is gone; every other document is as it was.
    pub reconcile_entry_lem :
        (entry_id : String) (e : EntryForSearch N) (st : ContentStatus) (i : String)
        (s : engine.State)
        → e.id ≡ entry_id
        → is_indexable st ≡ true
        → has i (all_keys engine formats entry_id) ≡ false
        → (engine.document
              (search_doc_id entry_id st)
              (reconcile_entry engine formats entry_id (some e) s)
            ≡ Option.map (document_of formats e) (last_with st e.versions none))
          × (engine.document
                (search_doc_id entry_id st)
                (reconcile_entry engine formats entry_id none s)
              ≡ none)
          × (engine.document i (reconcile_entry engine formats entry_id (some e) s)
              ≡ engine.document i s)
          × (engine.document i (reconcile_entry engine formats entry_id none s)
              ≡ engine.document i s)
    unfolding reconcile_entry
    reconcile_entry_lem entry_id e st i s own t other = (
      subst
          (λ id.
            engine.document (search_doc_id id st) (reconcile_entry engine formats id (some e) s)
            ≡ Option.map (document_of formats e) (last_with st e.versions none))
          own (at_key e s st t),
      laws.delete_lem (search_doc_id entry_id st) (all_keys engine formats entry_id) s
          ∙ if-true _ none _ (key_listed entry_id st t),
      subst
          (λ id.
            engine.document i (reconcile_entry engine formats id (some e) s) ≡ engine.document i s)
          own
          (elsewhere e s i
            (subst (λ id. has i (all_keys engine formats id) ≡ false) (sym own) other)),
      laws.delete_lem i (all_keys engine formats entry_id) s ∙ if-false _ none _ other,
    )
