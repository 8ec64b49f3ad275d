-- ===== src/Content/EnrichLaws.antt =====
-- apps/cms/server/utils/enrichRichtextEmbeds.ts: the links of an enriched document.
use mathlib.Core.Option
use boject_cms.Common.{
  if-true, if-false, either, neither, String, ◌==◌, true, false, ◌||◌, ◌≡◌, refl, sym, ap, ◌∙◌,
  List, [], ◌∷◌, Option, none, some, arith, string_eq, has, has-append, Bool-cases, inl, inr,
  eq_iff,
}
use boject_cms.Content.Json.{
  Json, str, arr, obj, Items, nil, cons, Fields, no_fields, field, get, put, property?,
}
use boject_cms.Content.Text.{join, trim}
use boject_cms.Content.Richtext.{is_named, str_of}
use boject_cms.Content.RichtextLaws.{Among, first, later}
use boject_cms.Content.Spread.{is_digit, starts_with_digit, get-index_items}
use boject_cms.Content.Maps.{get-put_self, get-put_other}
use boject_cms.Content.Enrich.{
  add, is_reference, is_external, spread?, index_items, existing_tokens, rel_tokens,
  apply_rel_injection, stamp_reference, stamp_identifier, identifier_of, enrich, enrich_content,
  enrich_children, enrich_items,
}

-- Attributes whose `rel` has both tokens, if the target is a new window.
pub record IsGuarded {N : Type 0} (attrs : Fields N) : Type 0 where
  pub tokens_of :
      is_named "_blank" (get "target" attrs) ≡ true
      → (ws : List String) × (get "rel" attrs ≡ some (str (join " " ws)))
        × (has "noopener" ws ≡ true)
        × (has "noreferrer" ws ≡ true)

has-add : (a x : String) (out : List String) → has a (add x out) ≡ (has a out || x == a)
unfolding has
has-add a x out = ground (arith, has-append a out (x ∷ []), eq_iff x a)

pub apply_rel_injection-IsGuarded :
    {N : Type 0} (attrs : Fields N) → IsGuarded (apply_rel_injection attrs)
unfolding apply_rel_injection
apply_rel_injection-IsGuarded attrs = elim (Bool-cases (is_named "_blank" (get "target" attrs))) [
  | inl blank ↦
      let tokens = existing_tokens (trim (str_of (get "rel" attrs))) in
      let new = rel_tokens tokens in
      let written = get-put_self "rel" (str (join " " new)) attrs in
      record {
        tokens_of = λ _. (
          new,
          ground (arith, blank, written),
          has-add "noopener" "noreferrer" (add "noopener" tokens)
              ∙ ground (arith, has-add "noopener" "noopener" tokens),
          ground (arith, has-add "noreferrer" "noreferrer" (add "noopener" tokens)),
        );
      }
  | inr other ↦ record { tokens_of = λ b. absurd (ground (arith, other, b)) }
]

module _ {N : Type 0} (map : String → Option String) where
  enrich_content-other :
      (k : String) (fs : Fields N)
      → ("content" == k) ≡ false
      → get k (enrich_content map fs) ≡ get k fs
  unfolding enrich
  enrich_content-other k no_fields h = refl
  enrich_content-other k (field j v fs) h =
      ground
        (arith, enrich_content-other k fs h, eq_iff j "content", eq_iff j k, eq_iff "content" k)

  enrich_content-content :
      (fs : Fields N)
      → get "content" (enrich_content map fs) ≡ Option.map (enrich_children map) (get "content" fs)
  unfolding enrich
  enrich_content-content no_fields = refl
  enrich_content-content (field j v fs) = ground (arith, enrich_content-content fs)

  children :
      (t : Option (Json N)) (ys : Items N)
      → some (arr ys) ≡ Option.map (enrich_children map) t
      → (xs : Items N) × (ys ≡ enrich_items map xs)
  unfolding enrich
  children (some (arr xs)) ys h = (xs, ground arith)
  children none ys h = absurd (ground arith)
  children (some v) ys h = absurd (ground arith)

  pub Among-enrich :
      (c : Json N) (xs ys : Items N)
      → ys ≡ enrich_items map xs
      → Among c ys
      → (d : Json N) × (c ≡ enrich map d)
  unfolding enrich
  Among-enrich c nil _ e (first ys) = absurd (ground arith)
  Among-enrich c nil _ e (later y ys a) = absurd (ground arith)
  Among-enrich c (cons x xs) _ e (first ys) = (x, ground (arith, e))
  Among-enrich c (cons x xs) _ e (later y ys a) = Among-enrich c xs ys (ground (arith, e)) a

-- The type and the content of a node.
is_reference-get :
    {N : Type 0} (m n : Fields N)
    → get "type" m ≡ get "type" n
    → (is_reference m ≡ is_reference n) × (is_external m ≡ is_external n)
is_reference-get m n e =
    (ap (λ t. is_named "cmsEmbed" t || is_named "cmsLink" t) e, ap (is_named "externalLink") e)

obj-inj : {N : Type 0} (m n : Fields N) → obj m ≡ obj n → m ≡ n
obj-inj m n h = cc

module _ {N : Type 0} (map : String → Option String) where
  -- What becomes of an object node.
  data Enriched (n m : Fields N) : Type 0 where
    as_link :
        (a : Fields N)
        → (is_reference m || is_external m) ≡ true
        → m ≡ put "attrs" (obj (apply_rel_injection a)) n
        → Enriched n m
    as_node : (is_reference m || is_external m) ≡ false → m ≡ enrich_content map n → Enriched n m

  type_kept : (v : Json N) (n m : Fields N) → m ≡ put "attrs" v n → get "type" m ≡ get "type" n
  type_kept v n m e = ap (get "type") e ∙ get-put_other "type" "attrs" v n refl

  enrich-Enriched : (n m : Fields N) → enrich map (obj n) ≡ obj m → Enriched n m
  unfolding enrich stamp_reference
  enrich-Enriched n m h = elim (Bool-cases (is_reference n)) [
    | inl r ↦
        let e = sym (
          obj-inj (put "attrs" (obj (stamp_reference map (get "attrs" n))) n) m
            (sym (if-true (is_reference n) _ _ r) ∙ h)) in
        let (q, _) = is_reference-get m n (type_kept _ n m e) in
        as_link
          (stamp_identifier map (identifier_of map (property? "contentTypeId" (get "attrs" n)))
            (spread? (get "attrs" n)))
          (either (is_reference m) (is_external m) (inl (q ∙ r))) e
    | inr r ↦ elim (Bool-cases (is_external n)) [
      | inl x ↦
          let e = sym (
            obj-inj (put "attrs" (obj (apply_rel_injection (spread? (get "attrs" n)))) n) m
              (sym (if-false (is_reference n) _ _ r ∙ if-true (is_external n) _ _ x) ∙ h)) in
          let (_, q) = is_reference-get m n (type_kept _ n m e) in
          as_link (spread? (get "attrs" n)) (either (is_reference m) (is_external m) (inr (q ∙ x)))
            e
      | inr x ↦
          let e = sym (
            obj-inj (enrich_content map n) m
              (sym (if-false (is_reference n) _ _ r ∙ if-false (is_external n) _ _ x) ∙ h)) in
          let (q, y) =
            is_reference-get m n (ap (get "type") e ∙ enrich_content-other map "type" n refl) in
          as_node (neither (is_reference m) (is_external m) (q ∙ r) (y ∙ x)) e
    ]
  ]

  -- A list that became an object is no link, and has no content.
  spread_lem :
      (xs : Items N) (m : Fields N)
      → enrich map (arr xs) ≡ obj m
      → ((is_reference m || is_external m) ≡ false) × (get "content" m ≡ none)
  unfolding enrich starts_with_digit is_digit
  spread_lem xs m h =
      let e = sym (obj-inj (index_items 0 xs) m h) in
      let t : get "type" m ≡ none = ap (get "type") e ∙ get-index_items "type" 0 xs refl in
      (ground (arith, t), ap (get "content") e ∙ get-index_items "content" 0 xs refl)

  pub link_lem :
      (doc : Json N) (m : Fields N)
      → enrich map doc ≡ obj m
      → (is_reference m || is_external m) ≡ true
      → (a : Fields N) × (get "attrs" m ≡ some (obj (apply_rel_injection a)))
  link_lem (obj n) m e l = elim (enrich-Enriched n m e) [
    | as_link a _ q ↦ (a, ap (get "attrs") q ∙ get-put_self "attrs" (obj (apply_rel_injection a)) n)
    | as_node other _ ↦ absurd (ground arith)
  ]
  link_lem (arr xs) m e l = absurd (ground (arith, spread_lem xs m e))
  link_lem doc m e l = absurd (unfold enrich in ground arith)

  pub content_lem :
      (doc : Json N) (m : Fields N) (ys : Items N)
      → enrich map doc ≡ obj m
      → (is_reference m || is_external m) ≡ false
      → get "content" m ≡ some (arr ys)
      → (xs : Items N) × (ys ≡ enrich_items map xs)
  content_lem (obj n) m ys e l c = elim (enrich-Enriched n m e) [
    | as_link a link q ↦ absurd (ground arith)
    | as_node _ q ↦
        children map (get "content" n) ys
          (sym c ∙ (ap (get "content") q ∙ enrich_content-content map n))
  ]
  content_lem (arr xs) m ys e l c = absurd (ground (arith, spread_lem xs m e))
  content_lem doc m ys e l c = absurd (unfold enrich in ground arith)
