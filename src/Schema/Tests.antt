-- ===== src/Schema/Tests.antt =====
-- Instances at a concrete schema: articles with a title and a number, and an empty type of tags.
use boject_cms.Common.{◌≡◌, refl, true, false, [], ◌∷◌, map, all, none, some, string_eq, has}
use boject_cms.FieldType.{entry_title, relation}
use boject_cms.Schema.Types.{
  texts, SnapshotField, SnapshotType, CurrentSchemaSnapshot, empty_plan,
  content_type_removal_with_entries,
}
use boject_cms.Schema.Plan.{plan_schema}
use boject_cms.Schema.Kept.{bundle_type, IsKept}
use boject_cms.Schema.Removal.{is_type_removal_safe, is_field_removal_safe, plan_schema-removals}
use boject_cms.Schema.Unchanged.{plan_schema-bundle_type}

abbrev title : SnapshotField
title = record {
  id = "f1";
  identifier = "title";
  name = "Title";
  type = entry_title;
  required = true;
  unique = true;
  order = 0;
  options = none;
}

abbrev about : SnapshotField
about = record {
  id = "f2";
  identifier = "about";
  name = "About";
  type = relation;
  required = false;
  unique = false;
  order = 1;
  options = some (("targetContentTypeIdentifiers", texts ("Tag" ∷ [])) ∷ []);
}

abbrev article : SnapshotType
article = record {
  id = "t1";
  identifier = "Article";
  name = "Article";
  description = none;
  fields = title ∷ about ∷ [];
  entry_count = 3;
}

abbrev tag : SnapshotType
tag = record {
  id = "t2";
  identifier = "Tag";
  name = "Tag";
  description = none;
  fields = [];
  entry_count = 0;
}

abbrev schema : CurrentSchemaSnapshot
schema = record { content_types = article ∷ tag ∷ []; field_usage = λ k. none }

schema-IsKept : IsKept schema
unfolding has
schema-IsKept = record {
  types = (
    ((refl, refl), ((refl, refl), tt)),
    (refl, (refl, tt)),
    (refl, (refl, tt)),
    (tt, tt, tt, tt),
  );
  ids = (refl, (refl, tt));
  names = (refl, (refl, tt));
}

-- Without a bundle, the tags go and the articles stay.
tags_go :
    (plan_schema none schema true).blockers
    ≡ record {
      code = content_type_removal_with_entries;
      path = "contentTypes.Article";
      affected_entry_ids = [];
    }
      ∷ []
unfolding plan_schema has
tags_go = refl

plan_schema-removals_example :
    (all (is_type_removal_safe true []) (plan_schema none schema true).type_removals ≡ true)
    × (all (is_field_removal_safe true []) (plan_schema none schema true).field_removals ≡ true)
plan_schema-removals_example = plan_schema-removals none schema true

plan_schema-bundle_type_example :
    plan_schema (some (map (bundle_type false) (article ∷ tag ∷ []))) schema true ≡ empty_plan
plan_schema-bundle_type_example = plan_schema-bundle_type false true schema schema-IsKept
