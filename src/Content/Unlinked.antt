-- ===== src/Content/Unlinked.antt =====
-- apps/cms/server/utils/enrichRichtextEmbeds.ts: entries that are stored as they were given.
use boject_cms.Common.{
  if-true, if-false, String, ◌==◌, Bool, true, false, not, ◌≡◌, refl, ap, ◌∙◌, List, [], ◌∷◌,
  Option, none, some, arith, if◌then◌else◌, string_eq, has, filter, Bool-cases, inl, inr, eq_refl,
}
use boject_cms.Content.Json.{
  Json, null, bool, num, str, arr, obj, Items, nil, cons, Fields, no_fields, field, get,
}
use boject_cms.Content.Richtext.{is_list}
use boject_cms.Content.RichtextLaws.{Among, first, later, Within, itself, below}
use boject_cms.Content.Options.{ContentField}
use boject_cms.Content.Validated.{identifiers}
use boject_cms.Content.Enrich.{
  is_reference, is_richtext, collect_ids, enrich_bodies, enrich_entry_data, collect,
  collect_content, collect_children, collect_items, collect_body,
}

unchanged : {A : Type 0} (b : Bool) (a : A) → (if not b then a else a) ≡ a
unchanged true a = refl
unchanged false a = refl

-- A document without embeds and entry links gives no id.
module _ {N : Type 0} where
  mutual
    unfolding collect

    collect_none :
        (doc : Json N) (out : List String)
        → ((n : Fields N) → Within n doc → is_reference n ≡ false)
        → collect doc out ≡ out
    collect_none (obj n) out h =
        ap (collect_content n) (if-false (is_reference n) _ _ (h n (itself (obj n) refl)))
        ∙ collect_content_none n out (λ xs child m e a w. h m (below n xs child e a w))
    collect_none (arr xs) out h = refl
    collect_none null out h = refl
    collect_none (bool b) out h = refl
    collect_none (num x) out h = refl
    collect_none (str s) out h = refl

    collect_content_none :
        (fs : Fields N) (out : List String)
        → ((xs : Items N) (child : Json N) (m : Fields N)
            → get "content" fs ≡ some (arr xs)
            → Among child xs
            → Within m child
            → is_reference m ≡ false)
        → collect_content fs out ≡ out
    collect_content_none no_fields out h = refl
    collect_content_none (field k v fs) out h = elim (Bool-cases (k == "content")) [
      | inl hit ↦
          if-true (k == "content") _ _ hit
          ∙ collect_children_none v out
              (λ xs child m e a w. h xs child m (ground (arith, hit, e)) a w)
      | inr miss ↦
          if-false (k == "content") _ _ miss
          ∙ collect_content_none fs out
              (λ xs child m e a w. h xs child m (ground (arith, miss, e)) a w)
    ]

    collect_children_none :
        (v : Json N) (out : List String)
        → ((xs : Items N) (child : Json N) (m : Fields N)
            → v ≡ arr xs
            → Among child xs
            → Within m child
            → is_reference m ≡ false)
        → collect_children v out ≡ out
    collect_children_none (arr xs) out h =
        collect_items_none xs out (λ child m a w. h xs child m refl a w)
    collect_children_none null out h = refl
    collect_children_none (bool b) out h = refl
    collect_children_none (num x) out h = refl
    collect_children_none (str s) out h = refl
    collect_children_none (obj n) out h = refl

    collect_items_none :
        (xs : Items N) (out : List String)
        → ((child : Json N) (m : Fields N)
            → Among child xs
            → Within m child
            → is_reference m ≡ false)
        → collect_items xs out ≡ out
    collect_items_none nil out h = refl
    collect_items_none (cons x xs) out h =
        ap (collect_items xs) (collect_none x out (λ m w. h x m (first xs) w))
        ∙ collect_items_none xs out (λ child m a w. h child m (later x xs a) w)

  collect_body_none :
      (v : Option (Json N)) (out : List String)
      → ((doc : Json N) (n : Fields N) → v ≡ some doc → Within n doc → is_reference n ≡ false)
      → collect_body v out ≡ out
  collect_body_none none out h = refl
  collect_body_none (some null) out h = refl
  collect_body_none (some (bool b)) out h = collect_none (bool b) out (λ n w. h _ n refl w)
  collect_body_none (some (num x)) out h = collect_none (num x) out (λ n w. h _ n refl w)
  collect_body_none (some (str s)) out h = collect_none (str s) out (λ n w. h _ n refl w)
  collect_body_none (some (arr xs)) out h = collect_none (arr xs) out (λ n w. h _ n refl w)
  collect_body_none (some (obj m)) out h = collect_none (obj m) out (λ n w. h _ n refl w)

  collect_ids_none :
      (entry : Fields N) (fs : List (ContentField N)) (out : List String)
      → ((k : String) (doc : Json N) (n : Fields N)
          → has k (identifiers fs) ≡ true
          → get k entry ≡ some doc
          → Within n doc
          → is_reference n ≡ false)
      → collect_ids entry fs out ≡ out
  unfolding collect_ids has
  collect_ids_none entry [] out h = refl
  collect_ids_none entry (f ∷ fs) out h =
      ap (collect_ids entry fs) (
        collect_body_none (get f.identifier entry) out
          (λ doc n e w. h f.identifier doc n (ground (arith, eq_refl f.identifier)) e w))
      ∙ collect_ids_none entry fs out (λ k doc n i e w. h k doc n (ground (arith, i)) e w)

module _ {N : Type 0} (load_identifiers : List String → String → Option String) where
  -- An entry whose documents have no embeds and no entry links is stored as it was given: the links
  -- out of the system in it have the `rel` that the editor gave them, or none.
  pub enrich_entry_data_self :
      (entry : Fields N) (fields : List (ContentField N))
      → ((k : String) (doc : Json N) (n : Fields N)
          → has k (identifiers (filter is_richtext fields)) ≡ true
          → get k entry ≡ some doc
          → Within n doc
          → is_reference n ≡ false)
      → enrich_entry_data load_identifiers entry fields ≡ entry
  unfolding enrich_entry_data
  enrich_entry_data_self entry fields h =
      let bodies = filter is_richtext fields in
      let e = collect_ids_none entry bodies [] h in
      ap
        (λ ids.
          if not (is_list bodies)
          then entry
          else if not (is_list ids)
          then entry
          else enrich_bodies (load_identifiers ids) entry bodies entry)
        e
      ∙ unchanged (is_list bodies) entry
