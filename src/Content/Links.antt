-- ===== src/Content/Links.antt =====
-- apps/cms/server/utils/enrichRichtextEmbeds.ts: the links of the documents that are stored.
use mathlib.Core.Option
use boject_cms.Common.{
  if-false, String, ◌==◌, true, false, ◌||◌, not, ◌≡◌, refl, sym, ap, ◌∙◌, ◌⊎◌, List, [], ◌∷◌,
  Option, none, some, arith, string_eq, has, filter, Bool-cases, inl, inr, eq_iff,
}
use boject_cms.Content.Json.{Json, null, bool, num, str, arr, obj, Items, Fields, get}
use boject_cms.Content.Richtext.{is_list}
use boject_cms.Content.RichtextLaws.{Among}
use boject_cms.Content.Maps.{get-put_self, get-put_other}
use boject_cms.Content.Options.{ContentField}
use boject_cms.Content.Validated.{identifiers}
use boject_cms.Content.Enrich.{
  is_reference, is_external, apply_rel_injection, enrich, is_richtext, collect_ids, put_enriched,
  enrich_bodies, enrich_entry_data,
}
use boject_cms.Content.EnrichLaws.{
  IsGuarded, apply_rel_injection-IsGuarded, link_lem, content_lem, Among-enrich,
}

-- The object nodes that a document reaches through the `content` of nodes that are no links.
pub data Reached {N : Type 0} (n : Fields N) : Json N → Type 0 where
  node : (doc : Json N) → doc ≡ obj n → Reached n doc
  through :
      (m : Fields N) (xs : Items N) (child doc : Json N)
      → doc ≡ obj m
      → (is_reference m || is_external m) ≡ false
      → get "content" m ≡ some (arr xs)
      → Among child xs
      → Reached n child
      → Reached n doc

module _ {N : Type 0} (map : String → Option String) where
  -- Every link that an enriched document reaches has guarded attributes.
  Reached-IsGuarded :
      (n : Fields N) (doc new : Json N)
      → new ≡ enrich map doc
      → Reached n new
      → (is_reference n || is_external n) ≡ true
      → (a : Fields N) × (get "attrs" n ≡ some (obj a)) × IsGuarded a
  Reached-IsGuarded n doc _ e (node new o) l =
      let (a, q) = link_lem map doc n (sym e ∙ o) l in
      (apply_rel_injection a, q, apply_rel_injection-IsGuarded a)
  Reached-IsGuarded n doc _ e (through m xs child new o other c among r) l =
      let (ys, q) = content_lem map doc m xs (sym e ∙ o) other c in
      let (d, w) = Among-enrich map child ys xs q among in Reached-IsGuarded n d child w r l

  -- A write of the loop over the bodies, at its key and elsewhere.
  put_enriched_other :
      (j k : String) (v : Option (Json N)) (out : Fields N)
      → (j == k) ≡ false
      → get k (put_enriched map j v out) ≡ get k out
  put_enriched_other j k none out d = refl
  put_enriched_other j k (some null) out d = refl
  put_enriched_other j k (some (bool b)) out d = get-put_other k j _ out d
  put_enriched_other j k (some (num x)) out d = get-put_other k j _ out d
  put_enriched_other j k (some (str s)) out d = get-put_other k j _ out d
  put_enriched_other j k (some (arr xs)) out d = get-put_other k j _ out d
  put_enriched_other j k (some (obj n)) out d = get-put_other k j _ out d

  put_enriched_self :
      (k : String) (v : Option (Json N)) (out : Fields N)
      → (get k out ≡ v) ⊎ (get k out ≡ Option.map (enrich map) v)
      → get k (put_enriched map k v out) ≡ Option.map (enrich map) v
  unfolding enrich
  put_enriched_self k none out h = ground arith
  put_enriched_self k (some null) out h = ground arith
  put_enriched_self k (some (bool b)) out h = get-put_self k _ out
  put_enriched_self k (some (num x)) out h = get-put_self k _ out
  put_enriched_self k (some (str s)) out h = get-put_self k _ out
  put_enriched_self k (some (arr xs)) out h = get-put_self k _ out
  put_enriched_self k (some (obj n)) out h = get-put_self k _ out

  put_enriched_same :
      (entry out : Fields N) (j k : String)
      → (j == k) ≡ true
      → (get k out ≡ get k entry) ⊎ (get k out ≡ Option.map (enrich map) (get k entry))
      → get k (put_enriched map j (get j entry) out) ≡ Option.map (enrich map) (get k entry)
  put_enriched_same entry out j k same h =
      ap (λ i. get k (put_enriched map i (get i entry) out)) ((eq_iff j k).0 same)
      ∙ put_enriched_self k (get k entry) out h

  -- What the loop leaves at a key.
  written_kept :
      (entry : Fields N) (fs : List (ContentField N)) (out : Fields N) (k : String)
      → get k out ≡ Option.map (enrich map) (get k entry)
      → get k (enrich_bodies map entry fs out) ≡ Option.map (enrich map) (get k entry)
  unfolding enrich_bodies
  written_kept entry [] out k h = h
  written_kept entry (f ∷ fs) out k h = elim (Bool-cases (f.identifier == k)) [
    | inl same ↦ written_kept entry fs _ k (put_enriched_same entry out f.identifier k same (inr h))
    | inr other ↦
        written_kept entry fs _ k
          (put_enriched_other f.identifier k (get f.identifier entry) out other ∙ h)
  ]

  written :
      (entry : Fields N) (fs : List (ContentField N)) (out : Fields N) (k : String)
      → get k out ≡ get k entry
      → has k (identifiers fs) ≡ true
      → get k (enrich_bodies map entry fs out) ≡ Option.map (enrich map) (get k entry)
  unfolding enrich_bodies has
  written entry [] out k h i = absurd (ground arith)
  written entry (f ∷ fs) out k h i = elim (Bool-cases (f.identifier == k)) [
    | inl same ↦ written_kept entry fs _ k (put_enriched_same entry out f.identifier k same (inl h))
    | inr other ↦
        written entry fs _ k
          (put_enriched_other f.identifier k (get f.identifier entry) out other ∙ h)
          (ground (arith, i, other))
  ]

has-is_list :
    {N : Type 0} (k : String) (fs : List (ContentField N))
    → has k (identifiers fs) ≡ true
    → is_list fs ≡ true
unfolding has
has-is_list k [] h = h
has-is_list k (f ∷ fs) h = refl

from_map :
    {A : Type 0} (f : A → A) (o : Option A) (b : A) → Option.map f o ≡ some b → (a : A) × (b ≡ f a)
from_map f none b h = absurd (ground arith)
from_map f (some a) b h = (a, ground arith)

module _ {N : Type 0} (load_identifiers : List String → String → Option String) where
  enriched-cases :
      (entry : Fields N) (fields : List (ContentField N)) (k : String)
      → is_list (collect_ids entry (filter is_richtext fields) []) ≡ true
      → has k (identifiers (filter is_richtext fields)) ≡ true
      → (map : String → Option String) × (get k (enrich_entry_data load_identifiers entry fields)
          ≡ Option.map (enrich map) (get k entry))
  unfolding enrich_entry_data
  enriched-cases entry fields k some_id i =
      let bodies = filter is_richtext fields in
      let ids = collect_ids entry bodies [] in
      let there : not (is_list bodies) ≡ false = ap not (has-is_list k bodies i) in
      (
        load_identifiers ids,
        ap (get k) (
              if-false (not (is_list bodies)) _ _ there
              ∙ if-false (not (is_list ids)) _ _ (ap not some_id))
            ∙ written (load_identifiers ids) entry bodies entry k refl i,
      )

  -- Where an entry has a reference in some document, every link that the new document of a rich text
  -- field reaches without passing through another link has attributes whose `rel` holds `noopener`
  -- and `noreferrer`, if it opens a new window.
  pub enrich_entry_data-IsGuarded :
      (entry : Fields N) (fields : List (ContentField N)) (k : String) (doc : Json N) (n : Fields N)
      → is_list (collect_ids entry (filter is_richtext fields) []) ≡ true
      → has k (identifiers (filter is_richtext fields)) ≡ true
      → get k (enrich_entry_data load_identifiers entry fields) ≡ some doc
      → Reached n doc
      → (is_reference n || is_external n) ≡ true
      → (a : Fields N) × (get "attrs" n ≡ some (obj a)) × IsGuarded a
  enrich_entry_data-IsGuarded entry fields k doc n some_id i h r l =
      let (map, q) = enriched-cases entry fields k some_id i in
      let (old, e) = from_map (enrich map) (get k entry) doc (sym q ∙ h) in
      Reached-IsGuarded map n old doc e r l
