-- ===== src/SearchIndex/DocIds.antt =====
-- apps/cms/server/utils/searchDocument.ts: the ids of documents tell statuses apart.
use Prim.Native.String.{◌++◌ as ◌<>◌}
use text.Mathlib.TextLemmas.{append_cancel_left}
use boject_cms.Common.{String, ◌==◌, true, false, ◌≡◌, refl, arith, string_eq, eq_iff, eq_refl}
use boject_cms.Entry.Version.{ContentStatus, draft, published, changed, archived, same_status}
use boject_cms.SearchIndex.Document.{search_doc_id, is_indexable}

different_key : (e s t : String) → (s == t) ≡ false → ((e <> s) == (e <> t)) ≡ false
different_key e s t h =
    ground (arith, eq_iff (e <> s) (e <> t), eq_iff s t, append_cancel_left e s t)

-- The key of a status names it.
pub search_doc_id-same_status :
    (e : String) (a b : ContentStatus) → (search_doc_id e a == search_doc_id e b) ≡ same_status a b
unfolding search_doc_id
search_doc_id-same_status e draft draft = eq_refl _
search_doc_id-same_status e published published = eq_refl _
search_doc_id-same_status e changed changed = eq_refl _
search_doc_id-same_status e archived archived = eq_refl _
search_doc_id-same_status e draft published = different_key e "__DRAFT" "__PUBLISHED" refl
search_doc_id-same_status e draft changed = different_key e "__DRAFT" "__CHANGED" refl
search_doc_id-same_status e draft archived = different_key e "__DRAFT" "__ARCHIVED" refl
search_doc_id-same_status e published draft = different_key e "__PUBLISHED" "__DRAFT" refl
search_doc_id-same_status e published changed = different_key e "__PUBLISHED" "__CHANGED" refl
search_doc_id-same_status e published archived = different_key e "__PUBLISHED" "__ARCHIVED" refl
search_doc_id-same_status e changed draft = different_key e "__CHANGED" "__DRAFT" refl
search_doc_id-same_status e changed published = different_key e "__CHANGED" "__PUBLISHED" refl
search_doc_id-same_status e changed archived = different_key e "__CHANGED" "__ARCHIVED" refl
search_doc_id-same_status e archived draft = different_key e "__ARCHIVED" "__DRAFT" refl
search_doc_id-same_status e archived published = different_key e "__ARCHIVED" "__PUBLISHED" refl
search_doc_id-same_status e archived changed = different_key e "__ARCHIVED" "__CHANGED" refl

pub other_status :
    (a b : ContentStatus) → is_indexable a ≡ false → is_indexable b ≡ true → same_status a b ≡ false
other_status archived draft f t = refl
other_status archived published f t = refl
other_status archived changed f t = refl
other_status archived archived f t = absurd (ground arith)
other_status draft b f t = absurd (ground arith)
other_status published b f t = absurd (ground arith)
other_status changed b f t = absurd (ground arith)
