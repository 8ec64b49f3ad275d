-- ===== src/Entry/Tests.antt =====
-- The theorems on entries at one database of rows.
use boject_cms.Common.{String, ◌≡◌, refl, inr, [], ◌∷◌, none, some, arith}
use boject_cms.Entry.Version.{
  ContentStatus, draft, published, changed, archived, ContentEntry, ContentEntryVersion,
  get_draft_version, get_published_version,
}
use boject_cms.Entry.Transition.{unpublish, archive, unarchive, plan_transition}
use boject_cms.Entry.Database.{ContentTypeRef}
use boject_cms.Entry.ListDatabase.{Rows, list_database, list_database-DatabaseLaws}
use boject_cms.Entry.Handlers.{done, crashed, FlatEntry, transition_handler}
use boject_cms.Entry.Writes.{ContentOps, publish_entry, upsert_entry_draft}
use boject_cms.Entry.Settled.{IsOnly}
use boject_cms.Entry.Preserve.{unpublish_lem}
use boject_cms.Entry.WriteLaws.{Counts}
use boject_cms.Entry.PublishLaws.{publish_entry_lem, upsert_entry_draft_lem}
use boject_cms.Entry.Stored.{Holds}
use boject_cms.Entry.Contents.{publish_entry-Holds, upsert_entry_draft-Holds}
use boject_cms.Entry.ArchivedWrites.{unarchive_beside_draft, archived_writes}
use boject_cms.Entry.Refusals.{plan_transition-refused, is_error, refused}

abbrev article : ContentEntry
article = record {
  id = "e1";
  content_type_id = "t1";
  entry_title = "Hello";
  entry_key = "hello";
  slug = some "hello";
  created_at = 10;
  updated_at = 20;
}

abbrev article_type : ContentTypeRef
article_type = record { id = "t1"; identifier = "Article" }

abbrev version : String → ContentStatus → ContentEntryVersion String
version i st = record {
  id = i;
  status = st;
  data_of = "body";
  entry_title = "Hello";
  published_at = some 15;
  created_by = none;
  updated_by = none;
}

abbrev live : Rows String
live = (version "p" published ∷ version "c" changed ∷ [], (refl, (refl, tt)))

abbrev plain : Rows String
plain = (version "p" published ∷ [], (refl, tt))

abbrev stored : Rows String
stored = (version "a" archived ∷ [], (refl, tt))

abbrev crowded : Rows String
crowded = (version "a" archived ∷ version "d" draft ∷ [], (refl, (refl, tt)))

abbrev plain_ops : ContentOps String
plain_ops = record { validate = λ d. inr d; extract_entry_title = λ d. d; extract_slug = λ d. none }

unpublish_lem_example :
    (s' : Rows String) × (r : FlatEntry String) × (transition_handler
        (list_database String)
        unpublish
        (some article)
        article_type
        30
        live
      ≡ done s' r)
    × (r.version.status ≡ draft)
    × IsOnly draft (s'.0)
unpublish_lem_example =
    unpublish_lem (list_database-DatabaseLaws String) article article_type 30 live (omega arith)
      (omega arith)

publish_entry_lem_example :
    (s' : Rows String) × (publish_entry
        (list_database String)
        plain_ops
        article
        article_type
        none
        30
        live
      ≡ done s' tt)
    × Counts 0 1 0 0 (s'.0)
unfolding get_draft_version
publish_entry_lem_example =
    publish_entry_lem (list_database-DatabaseLaws String) plain_ops article article_type 30 none
      "body" live (omega arith) refl (λ s. (s, refl))

upsert_entry_draft_lem_example :
    (s' : Rows String) × (upsert_entry_draft
        (list_database String)
        plain_ops
        article
        article_type
        (some "new")
        30
        plain
      ≡ done s' tt)
    × Counts 0 1 1 0 (s'.0)
upsert_entry_draft_lem_example =
    upsert_entry_draft_lem (list_database-DatabaseLaws String) plain_ops article article_type 30
      "new" "new" plain (omega arith) refl (λ s. (s, refl))

unarchive_beside_draft_example :
    transition_handler (list_database String) unarchive (some article) article_type 30 crowded
    ≡ crashed crowded
unarchive_beside_draft_example =
    unarchive_beside_draft (list_database-DatabaseLaws String) article article_type 30 crowded
      (omega arith) (omega arith)

archived_writes_example :
    (s₁ s₂ s₃ s₄ : Rows String) × (r : FlatEntry String) × (upsert_entry_draft
        (list_database String)
        plain_ops
        article
        article_type
        (some "new")
        30
        stored
      ≡ done s₁ tt)
    × (publish_entry (list_database String) plain_ops article article_type (some "new") 30 s₁
        ≡ done s₂ tt)
    × (upsert_entry_draft (list_database String) plain_ops article article_type (some "new") 30 s₂
        ≡ done s₃ tt)
    × (transition_handler (list_database String) unarchive (some article) article_type 30 s₃
        ≡ done s₄ r)
    × Counts 1 1 1 0 (s₄.0)
    × (transition_handler (list_database String) unpublish (some article) article_type 30 s₄
        ≡ crashed s₄)
archived_writes_example =
    archived_writes (list_database-DatabaseLaws String) article article_type 30 plain_ops "new"
      "new" refl (λ s. (s, refl)) stored (omega arith)

plan_transition-refused_example :
    is_error (plan_transition article (live.0) archive) ≡ refused archive (live.0)
plan_transition-refused_example = plan_transition-refused article (live.0) archive

publish_entry-Holds_example :
    (s' : Rows String) × (publish_entry
        (list_database String)
        plain_ops
        article
        article_type
        none
        30
        live
      ≡ done s' tt)
    × Holds (list_database-DatabaseLaws String) plain_ops published "body" (some 15) s'
unfolding get_draft_version get_published_version
publish_entry-Holds_example =
    publish_entry-Holds (list_database-DatabaseLaws String) plain_ops article article_type 30 none
      "body" live (omega arith) refl (λ s. (s, refl))

upsert_entry_draft-Holds_example :
    (s' : Rows String) × (upsert_entry_draft
        (list_database String)
        plain_ops
        article
        article_type
        (some "new")
        30
        plain
      ≡ done s' tt)
    × Holds (list_database-DatabaseLaws String) plain_ops changed "new" none s'
unfolding get_published_version
upsert_entry_draft-Holds_example =
    upsert_entry_draft-Holds (list_database-DatabaseLaws String) plain_ops article article_type 30
      "new" "new" plain (omega arith) refl (λ s. (s, refl))
