-- ===== src/Content/RichtextLaws.antt =====
-- apps/cms/server/utils/validateEntryData.ts: what the references and links of an accepted document
-- are, at any depth.
pub use boject_cms.Content.Nodes.{Accepts, IsAllowed}
use boject_cms.Content.Outcomes.{>>=-eq-ok}
use boject_cms.Content.Nodes.{check_node_lem}
use mathlib.Core.Path.{subst}
use boject_cms.Common.{
  String, ◌==◌, Bool, true, ◌≡◌, refl, Option, some, arith, inl, inr, ◌↔◌, ap, sym, ◌∙◌, Bool-cases,
  string_eq,
}
use boject_cms.Content.Json.{
  Json, null, bool, num, str, arr, obj, Items, nil, cons, Fields, no_fields, field, get, Outcome,
  ok, ◌>>=◌,
}
use boject_cms.Content.Richtext.{
  Url, Allowed, check_node, walk, walk_content, walk_children, walk_items,
  validate_richtext_references,
}

-- The items of a list.
pub data Among {N : Type 0} (x : Json N) : Items N → Type 0 where
  first : (xs : Items N) → Among x (cons x xs)
  later : (y : Json N) (xs : Items N) → Among x xs → Among x (cons y xs)

-- The object nodes that a document reaches through `content`.
pub data Within {N : Type 0} (n : Fields N) : Json N → Type 0 where
  itself : (doc : Json N) → doc ≡ obj n → Within n doc
  below :
      (m : Fields N) (xs : Items N) (child : Json N)
      → get "content" m ≡ some (arr xs)
      → Among child xs
      → Within n child
      → Within n (obj m)

after :
    (m : Outcome Bool) (f : Bool → Outcome Bool)
    → Accepts m
    → ((b : Bool) → Accepts (f b))
    → Accepts (m >>= f)
after m f (a, e) h = let (c, r) = h a in (c, ap (λ o. o >>= f) e ∙ r)

module _ {N : Type 0} (new_url : String → Option Url) (name : String) (allowed : Allowed) where
  walk_content_lem :
      (fs : Fields N) (xs : Items N)
      → get "content" fs ≡ some (arr xs)
      → walk_content new_url name allowed fs ≡ walk_items new_url name allowed xs
  unfolding walk
  walk_content_lem no_fields xs h = absurd (ground arith)
  walk_content_lem (field k v fs) xs h = elim (Bool-cases (k == "content")) [
    | inl hit ↦ let e : v ≡ arr xs = ground (arith, hit) in ground (arith, hit, e)
    | inr miss ↦ ground (arith, miss, walk_content_lem fs xs)
  ]

  walk_items-Among :
      (child : Json N) (xs : Items N) (b : Bool)
      → walk_items new_url name allowed xs ≡ ok b
      → Among child xs
      → Accepts (walk new_url name allowed child)
  unfolding walk
  walk_items-Among child _ b h (first xs) =
      let (c, e, _) = >>=-eq-ok (walk new_url name allowed child) _ b h in (c, e)
  walk_items-Among child _ b h (later y xs m) =
      let (_, _, rest) = >>=-eq-ok (walk new_url name allowed y) _ b h in
      walk_items-Among child xs b rest m

  from_node :
      (n : Fields N) (b : Bool)
      → walk new_url name allowed (obj n) ≡ ok b
      → Accepts (check_node new_url name allowed n)
  unfolding walk
  from_node n b h = let (c, e, _) = >>=-eq-ok (check_node new_url name allowed n) _ b h in (c, e)

  walk-Within :
      (n : Fields N) (doc : Json N) (b : Bool)
      → walk new_url name allowed doc ≡ ok b
      → Within n doc
      → Accepts (check_node new_url name allowed n)
  unfolding walk
  walk-Within n doc b h (itself _ e) =
      from_node n b (subst (λ d. walk new_url name allowed d ≡ ok b) e h)
  walk-Within n _ b h (below m xs child e a w) =
      let (_, _, rest) = >>=-eq-ok (check_node new_url name allowed m) _ b h in
      let (c, r) = walk_items-Among child xs b (sym (walk_content_lem m xs e) ∙ rest) a in
      walk-Within n child c r w

  mutual
    unfolding walk

    walk_all :
        (doc : Json N)
        → ((n : Fields N) → Within n doc → Accepts (check_node new_url name allowed n))
        → Accepts (walk new_url name allowed doc)
    walk_all null h = (true, refl)
    walk_all (bool b) h = (true, refl)
    walk_all (num x) h = (true, refl)
    walk_all (str s) h = (true, refl)
    walk_all (arr xs) h = (true, refl)
    walk_all (obj n) h =
        after (check_node new_url name allowed n) _ (h n (itself (obj n) refl))
          λ _. walk_content_all n λ xs child m e a w. h m (below n xs child e a w)

    walk_content_all :
        (fs : Fields N)
        → ((xs : Items N) (child : Json N) (m : Fields N)
            → get "content" fs ≡ some (arr xs)
            → Among child xs
            → Within m child
            → Accepts (check_node new_url name allowed m))
        → Accepts (walk_content new_url name allowed fs)
    walk_content_all no_fields h = (true, refl)
    walk_content_all (field k v fs) h = elim (Bool-cases (k == "content")) [
      | inl hit ↦
          let (c, e) =
            walk_children_all v (λ xs child m e a w. h xs child m (ground (arith, hit, e)) a w) in
          (c, ground (arith, hit, e))
      | inr miss ↦
          let (c, e) =
            walk_content_all fs (λ xs child m e a w. h xs child m (ground (arith, miss, e)) a w) in
          (c, ground (arith, miss, e))
    ]

    walk_children_all :
        (v : Json N)
        → ((xs : Items N) (child : Json N) (m : Fields N)
            → v ≡ arr xs
            → Among child xs
            → Within m child
            → Accepts (check_node new_url name allowed m))
        → Accepts (walk_children new_url name allowed v)
    walk_children_all (arr xs) h = walk_items_all xs (λ child m a w. h xs child m refl a w)
    walk_children_all null h = (true, refl)
    walk_children_all (bool b) h = (true, refl)
    walk_children_all (num x) h = (true, refl)
    walk_children_all (str s) h = (true, refl)
    walk_children_all (obj n) h = (true, refl)

    walk_items_all :
        (xs : Items N)
        → ((child : Json N) (m : Fields N)
            → Among child xs
            → Within m child
            → Accepts (check_node new_url name allowed m))
        → Accepts (walk_items new_url name allowed xs)
    walk_items_all nil h = (true, refl)
    walk_items_all (cons x xs) h =
        after (walk new_url name allowed x) _ (walk_all x (λ m w. h x m (first xs) w))
          λ _. walk_items_all xs (λ child m a w. h child m (later x xs a) w)

  -- A document is accepted exactly when every object that it reaches through `content`, at any depth,
  -- is allowed: an embed or an entry link names an entry of a type that the field lists for it, and
  -- an external link has an address that parses, with one of the four schemes, with a target where
  -- that is an address of mail or telephone, and without a user name or password.
  pub validate_richtext_references_lem :
      (doc : Json N)
      → Accepts (validate_richtext_references new_url name doc allowed)
        ↔ ((n : Fields N) → Within n doc → IsAllowed new_url allowed n)
  unfolding validate_richtext_references
  validate_richtext_references_lem doc = (
    λ (b, h) n w. (check_node_lem new_url name allowed n).0 (walk-Within n doc b h w),
    λ all. walk_all doc (λ n w. (check_node_lem new_url name allowed n).1 (all n w)),
  )
