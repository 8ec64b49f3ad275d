-- ===== src/SearchIndex/Tests.antt =====
-- Instances at an entry with a draft beside a published version, and an engine that is a function.
use boject_cms.Common.{
  ℕ, String, true, false, map, filter, ◌≡◌, refl, [], ◌∷◌, Option, none, some, if◌then◌else◌,
  string_eq, arith, has,
}
use mathlib.Core.Option
use boject_cms.Content.Json.{Json, str, arr, obj, nil, cons, no_fields, field}
use boject_cms.Entry.Version.{ContentStatus, draft, published, changed, ContentEntryVersion}
use boject_cms.SearchIndex.Document.{
  SearchDocument, Formats, EntryForSearch, search_doc_id, document_of, richtext_to_plain_text,
  build_entry_search_documents,
}
use boject_cms.SearchIndex.Reconcile.{
  latest, SearchEngine, EngineLaws, reconcile_entry, add_batches, sync_to_search_index,
}
use boject_cms.SearchIndex.Batches.{document-add_batches}
use boject_cms.SearchIndex.Converge.{last_with, reconcile_entry_lem}
use boject_cms.SearchIndex.Working.{
  flagged, due, not_archived, build_entry_search_documents-is_shown,
}

abbrev engine : SearchEngine ℕ
engine = record {
  State = String → Option (SearchDocument ℕ);
  document = λ i s. s i;
  add_documents = λ ds s i. latest i ds (s i);
  delete_documents = λ is s i. if has i is then none else s i;
}

engine_laws : EngineLaws engine
engine_laws = record { add_lem = λ i ds s. refl; delete_lem = λ i is s. refl }

abbrev formats : Formats ℕ
formats = record { is_finite = λ x. true; epoch = λ s. some 0; iso = λ t. "1970" }

abbrev a_text : String → Json ℕ
a_text s = obj (field "type" (str "text") (field "text" (str s) no_fields))

abbrev paragraph : Json ℕ → Json ℕ
paragraph x = obj (field "type" (str "paragraph") (field "content" (arr (cons x nil)) no_fields))

abbrev page : Json ℕ
page = obj (
    field "type" (str "doc") (
      field "content" (arr (cons (paragraph (a_text "One ")) (cons (paragraph (a_text "two")) nil)))
        no_fields))

plain_text_of_page : richtext_to_plain_text (some page) ≡ "One two"
unfolding richtext_to_plain_text
plain_text_of_page = refl

abbrev version : String → ContentStatus → ContentEntryVersion (Json ℕ)
version i st = record {
  id = i;
  status = st;
  data_of = obj (field "body" page no_fields);
  entry_title = "One";
  published_at = none;
  created_by = none;
  updated_by = none;
}

abbrev entry : EntryForSearch ℕ
entry = record {
  id = "e1";
  entry_key = "one";
  content_type = "Page";
  fields = [];
  versions = version "v1" published ∷ version "v2" changed ∷ [];
}

abbrev empty_index : String → Option (SearchDocument ℕ)
empty_index i = none

reconcile_entry_lem_example :
    (engine.document
        (search_doc_id "e1" draft)
        (reconcile_entry engine formats "e1" (some entry) empty_index)
      ≡ Option.map (document_of formats entry) (last_with draft entry.versions none))
    × (engine.document
          (search_doc_id "e1" draft)
          (reconcile_entry engine formats "e1" none empty_index)
        ≡ none)
    × (engine.document "e2__DRAFT" (reconcile_entry engine formats "e1" (some entry) empty_index)
        ≡ engine.document "e2__DRAFT" empty_index)
    × (engine.document "e2__DRAFT" (reconcile_entry engine formats "e1" none empty_index)
        ≡ engine.document "e2__DRAFT" empty_index)
unfolding search_doc_id has
reconcile_entry_lem_example =
    reconcile_entry_lem engine engine_laws formats "e1" entry draft "e2__DRAFT" empty_index refl
      refl refl

build_entry_search_documents-is_shown_example :
    map flagged (build_entry_search_documents formats entry)
    ≡ map (due entry.versions) (filter (λ v. not_archived v.status) entry.versions)
build_entry_search_documents-is_shown_example = build_entry_search_documents-is_shown formats entry

-- The changed version is marked.
changed_marked :
    map flagged (build_entry_search_documents formats entry)
    ≡ (published, false) ∷ (changed, true) ∷ []
unfolding build_entry_search_documents
changed_marked = refl

document-add_batches_example :
    engine.document "e1__CHANGED" (
      add_batches engine formats 1
        (document_of formats entry (version "v2" changed) ∷ [])
        empty_index)
    ≡ latest "e1__CHANGED"
        (document_of formats entry (version "v2" changed) ∷ [])
        (engine.document "e1__CHANGED" empty_index)
document-add_batches_example =
    document-add_batches engine engine_laws formats 1 "e1__CHANGED" _ empty_index (omega arith)

abbrev other_event : Json ℕ
other_event = obj (field "event" (str "OTHER") no_fields)

other_event_ignored :
    sync_to_search_index engine formats (λ i. some entry) (λ i. []) other_event empty_index
    ≡ empty_index
unfolding sync_to_search_index has
other_event_ignored = refl
