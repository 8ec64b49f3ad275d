-- ===== src/SearchIndex/Reconcile.antt =====
-- apps/cms/server/utils/syncToSearchIndex.ts: the documents of an entry in the index of the search
-- engine. The engine is a parameter, told by the document that it holds under each id; the entry that
-- the database has is an argument. A task of the engine that fails throws, and the worker tries again.
use boject_cms.Common.{
  ℕ, zero, suc, length, ◌++◌, String, ◌==◌, Bool, ◌≡◌, not, List, [], ◌∷◌, map, Option, none, some,
  filter, if◌then◌else◌, string_eq, has,
}
use boject_cms.Content.Json.{Json, str, property, property?}
use boject_cms.Content.Richtext.{is_list}
use boject_cms.SearchIndex.Document.{
  SearchDocument, Formats, EntryForSearch, search_doc_id, indexable_statuses,
  build_entry_search_documents,
}

-- The document under an id after some were added over what was there: the last of them counts.
abbrev pub latest :
    {N : Type 0}
    → String
    → List (SearchDocument N)
    → Option (SearchDocument N)
    → Option (SearchDocument N)
latest i [] old = old
latest i (d ∷ ds) old = latest i ds (if d.id == i then some d else old)

pub record SearchEngine (N : Type 0) : Type 1 where
  pub State : Type 0
  pub document : String → State → Option (SearchDocument N)
  pub add_documents : List (SearchDocument N) → State → State
  pub delete_documents : List String → State → State

-- Documents are replaced by their ids.
pub record EngineLaws {N : Type 0} (engine : SearchEngine N) : Type 0 where
  pub add_lem :
      (i : String) (ds : List (SearchDocument N)) (s : engine.State)
      → engine.document i (engine.add_documents ds s) ≡ latest i ds (engine.document i s)
  pub delete_lem :
      (i : String) (is : List String) (s : engine.State)
      → engine.document i (engine.delete_documents is s)
        ≡ (if has i is then none else engine.document i s)

module _ {N : Type 0} (engine : SearchEngine N) (formats : Formats N) where
  unfoldable pub add_some : List (SearchDocument N) → engine.State → engine.State
  add_some docs s = if is_list docs then engine.add_documents docs s else s

  unfoldable pub delete_some : List String → engine.State → engine.State
  delete_some ids s = if is_list ids then engine.delete_documents ids s else s

  abbrev pub all_keys : String → List String
  all_keys entry_id = map (search_doc_id entry_id) indexable_statuses

  abbrev pub ids_of : List (SearchDocument N) → List String
  ids_of = map (λ d. d.id)

  abbrev pub stale_keys : String → List (SearchDocument N) → List String
  stale_keys entry_id docs = filter (λ k. not (has k (ids_of docs))) (all_keys entry_id)

  -- `reconcileEntry(deps, entryId)`, by what `findUnique` gives.
  unfoldable pub reconcile_entry : String → Option (EntryForSearch N) → engine.State → engine.State
  unfolding add_some delete_some build_entry_search_documents
  reconcile_entry entry_id none s = engine.delete_documents (all_keys entry_id) s
  reconcile_entry entry_id (some e) s =
      let docs = build_entry_search_documents formats e in
      delete_some (stale_keys entry_id docs) (add_some docs s)

abbrev text_of? : {N : Type 0} → Option (Json N) → Option String
text_of? (some (str s)) = some s
text_of? _ = none

-- `asRecord(value)[key]`, where that is a text; an empty text is no id.
abbrev text_at : {N : Type 0} → String → Option (Json N) → Option String
text_at k v = text_of? (property? k v)

abbrev pub schema_reindex_batch : ℕ
schema_reindex_batch = 1000

abbrev pub take : {A : Type 0} → ℕ → List A → List A
take zero xs = []
take (suc n) [] = []
take (suc n) (x ∷ xs) = x ∷ take n xs

abbrev pub drop : {A : Type 0} → ℕ → List A → List A
drop zero xs = xs
drop (suc n) [] = []
drop (suc n) (x ∷ xs) = drop n xs

abbrev is_entry_event : String → Bool
is_entry_event event =
    has event ("ENTRY_PUBLISHED" ∷ "ENTRY_UNPUBLISHED" ∷ "ENTRY_DELETED" ∷ "ENTRY_DRAFT_SYNC" ∷ [])

abbrev is_type_event : String → Bool
is_type_event event = has event ("CONTENT_TYPE_SCHEMA_CHANGED" ∷ "CONTENT_BULK_SYNC" ∷ [])

module _ {N : Type 0} (engine : SearchEngine N) (formats : Formats N) where
  -- The loop over the batches, on fuel, which is enough when there are no more documents than that.
  unfoldable pub add_batches : ℕ → List (SearchDocument N) → engine.State → engine.State
  add_batches zero docs s = s
  add_batches (suc fuel) docs s =
      let rest =
        add_batches fuel (drop schema_reindex_batch docs)
          (engine.add_documents (take schema_reindex_batch docs) s) in
      if is_list docs then rest else s

  unfoldable pub documents_of_all : List (EntryForSearch N) → List (SearchDocument N)
  documents_of_all [] = []
  documents_of_all (e ∷ es) = build_entry_search_documents formats e ++ documents_of_all es

  -- `syncToSearchIndex(deps, payload)`; the two queries are parameters.
  module _ (find_entry : String → Option (EntryForSearch N))
      (find_entries : String → List (EntryForSearch N)) where
    abbrev sync_entry : Option String → engine.State → engine.State
    sync_entry none s = s
    sync_entry (some i) s = if i == "" then s else reconcile_entry engine formats i (find_entry i) s

    abbrev sync_type : Option String → engine.State → engine.State
    sync_type none s = s
    sync_type (some i) s =
        let docs = documents_of_all (find_entries i) in
        if i == "" then s else add_batches (length docs) docs s

    abbrev sync_event : Option String → Json N → engine.State → engine.State
    sync_event none payload s = s
    sync_event (some event) payload s =
        if is_entry_event event
        then sync_entry (text_at "id" (property "entry" payload)) s
        else if is_type_event event
        then sync_type (text_at "contentTypeId" (some payload)) s
        else s

    unfoldable pub sync_to_search_index : Json N → engine.State → engine.State
    unfolding add_batches documents_of_all reconcile_entry
    sync_to_search_index payload s = sync_event (text_at "event" (some payload)) payload s
