-- ===== src/Content/Nodes.antt =====
-- apps/cms/server/utils/validateEntryData.ts: what a field allows of a node of its documents, and that
-- the checks of a node ask for that.
use boject_cms.Common.{
  String, ◌==◌, Bool, true, false, ◌&&◌, ◌||◌, ◌≡◌, refl, Option, none, some, arith, inl, inr, ◌↔◌,
  ap, ◌∙◌, Bool-cases, Option-cases, string_eq, has, List, [], ◌∷◌, eq_iff,
}
use boject_cms.Content.Json.{
  Json, null, bool, num, str, arr, obj, Fields, get, property?, Outcome, ok,
}
use boject_cms.Content.Text.{trim}
use boject_cms.Content.Richtext.{
  Url, Allowed, allowed_external_link_schemes, check_node, check_reference, check_embed, check_link,
  check_external_link, no_text, is_named, is_list,
}

-- An outcome that is a value.
abbrev pub Accepts : Outcome Bool → Type 0
Accepts o = (b : Bool) × (o ≡ ok b)

-- An embed or a link that names an entry of an allowed type.
pub record IsReference {N : Type 0} (types : List String) (attrs : Option (Json N)) : Type 0 where
  pub content_type_id : String
  pub entry_id : String
  pub typed : property? "contentTypeId" attrs ≡ some (str content_type_id)
  pub named : property? "entryId" attrs ≡ some (str entry_id)
  pub some_type : (content_type_id == "") ≡ false
  pub some_entry : (entry_id == "") ≡ false
  pub listed : has content_type_id types ≡ true

-- A link out of the system that is safe to follow.
pub record IsSafeLink {N : Type 0} (new_url : String → Option Url) (href : Option (Json N))
    : Type 0 where
  pub text : String
  pub url : Url
  pub written : href ≡ some (str text)
  pub not_blank : (trim text == "") ≡ false
  pub parsed : new_url text ≡ some url
  pub scheme : has url.protocol allowed_external_link_schemes ≡ true
  pub target :
      ((url.protocol == "mailto:" || url.protocol == "tel:") && trim url.pathname == "") ≡ false
  pub no_username : (url.username == "") ≡ true
  pub no_password : (url.password == "") ≡ true

-- What a field wants of a node.
pub record IsAllowed {N : Type 0} (new_url : String → Option Url) (allowed : Allowed) (n : Fields N)
    : Type 0 where
  pub embed :
      is_named "cmsEmbed" (get "type" n) ≡ true → IsReference allowed.embed_types (get "attrs" n)
  pub link :
      is_named "cmsLink" (get "type" n) ≡ true → IsReference allowed.link_types (get "attrs" n)
  pub external :
      is_named "externalLink" (get "type" n) ≡ true
      → IsSafeLink new_url (property? "href" (get "attrs" n))

has-is_list : (t : String) (types : List String) → has t types ≡ true → is_list types ≡ true
unfolding has
has-is_list t [] h = h
has-is_list t (x ∷ xs) h = refl

-- The ids of an attribute are texts that are not empty.
filled_text :
    {N : Type 0} (t : Option (Json N))
    → no_text t ≡ false
    → (s : String) × (t ≡ some (str s)) × ((s == "") ≡ false)
filled_text (some (str s)) h = (s, refl, h)
filled_text (some null) h = absurd (ground arith)
filled_text (some (bool b)) h = absurd (ground arith)
filled_text (some (num x)) h = absurd (ground arith)
filled_text (some (arr xs)) h = absurd (ground arith)
filled_text (some (obj fs)) h = absurd (ground arith)
filled_text none h = absurd (ground arith)

-- The type of a node is one of the three at most.
exclusive :
    {N : Type 0} (a b : String) (t : Option (Json N))
    → (a == b) ≡ false
    → is_named a t ≡ true
    → is_named b t ≡ false
exclusive a b (some (str s)) d h = ground (arith, eq_iff s a, eq_iff s b, eq_iff a b)
exclusive a b (some null) d h = refl
exclusive a b (some (bool x)) d h = refl
exclusive a b (some (num x)) d h = refl
exclusive a b (some (arr xs)) d h = refl
exclusive a b (some (obj fs)) d h = refl
exclusive a b none d h = refl

module _ {N : Type 0} (new_url : String → Option Url) (name : String) (allowed : Allowed) where
  check_reference_lem :
      (ms na ot : String) (types : List String) (attrs : Option (Json N))
      → Accepts (check_reference new_url name ms na ot types attrs) ↔ IsReference types attrs
  unfolding check_reference
  check_reference_lem ms na ot types attrs = (
    λ (b, h).
        let (t, p, f) = filled_text (property? "contentTypeId" attrs) (ground arith) in
        let (e, q, g) = filled_text (property? "entryId" attrs) (ground arith) in
        record {
          content_type_id = t;
          entry_id = e;
          typed = p;
          named = q;
          some_type = f;
          some_entry = g;
          listed = ground (arith, h, p);
        },
    λ r. (
      true,
      ground (
        arith,
        r.typed,
        r.named,
        r.some_type,
        r.some_entry,
        r.listed,
        has-is_list (r.content_type_id) types,
      ),
    ),
  )

  to_safe :
      (href : Option (Json N)) (b : Bool)
      → check_external_link new_url name href ≡ ok b
      → IsSafeLink new_url href
  unfolding check_external_link
  to_safe (some (str text)) b h = elim (Option-cases (new_url text)) [
    | inl bad ↦ absurd (ground (arith, bad))
    | inr (url, e) ↦ record {
      text = text;
      url = url;
      written = refl;
      not_blank = ground arith;
      parsed = e;
      scheme = ground (arith, e);
      target = ground (arith, e);
      no_username = ground (arith, e);
      no_password = ground (arith, e);
    }
  ]
  to_safe (some null) b h = absurd (ground arith)
  to_safe (some (bool x)) b h = absurd (ground arith)
  to_safe (some (num x)) b h = absurd (ground arith)
  to_safe (some (arr xs)) b h = absurd (ground arith)
  to_safe (some (obj fs)) b h = absurd (ground arith)
  to_safe none b h = absurd (ground arith)

  from_safe :
      {href : Option (Json N)} (l : IsSafeLink new_url href)
      → check_external_link new_url name href ≡ ok true
  unfolding check_external_link
  from_safe {href} l =
      ap (check_external_link new_url name) l.written
      ∙ ground (arith, l.not_blank, l.parsed, l.scheme, l.target, l.no_username, l.no_password)

  check_external_link_lem :
      (href : Option (Json N))
      → Accepts (check_external_link new_url name href) ↔ IsSafeLink new_url href
  unfolding check_external_link
  check_external_link_lem href = (λ (b, h). to_safe href b h, λ l. (true, from_safe l))

  check_embed_lem :
      (attrs : Option (Json N))
      → Accepts (check_embed new_url name allowed attrs) ↔ IsReference allowed.embed_types attrs
  unfolding check_embed
  check_embed_lem attrs = check_reference_lem _ _ _ allowed.embed_types attrs

  check_link_lem :
      (attrs : Option (Json N))
      → Accepts (check_link new_url name allowed attrs) ↔ IsReference allowed.link_types attrs
  unfolding check_link
  check_link_lem attrs = check_reference_lem _ _ _ allowed.link_types attrs

  pub check_node_lem :
      (n : Fields N) → Accepts (check_node new_url name allowed n) ↔ IsAllowed new_url allowed n
  unfolding check_node
  check_node_lem n =
      let type = get "type" n in
      let attrs = get "attrs" n in
      (
        λ (b, h). record {
          embed = λ i. (check_embed_lem attrs).0 (b, ground (arith, i));
          link = λ i.
              let e = exclusive "cmsLink" "cmsEmbed" type refl i in
              (check_link_lem attrs).0 (b, ground (arith, i, e));
          external = λ i.
              let e = exclusive "externalLink" "cmsEmbed" type refl i in
              let l = exclusive "externalLink" "cmsLink" type refl i in
              (check_external_link_lem (property? "href" attrs)).0 (b, ground (arith, i, e, l));
        },
        λ r. elim (Bool-cases (is_named "cmsEmbed" type)) [
          | inl e ↦ let (b, q) = (check_embed_lem attrs).1 (r.embed e) in (b, ground (arith, e, q))
          | inr e ↦ elim (Bool-cases (is_named "cmsLink" type)) [
            | inl l ↦
                let (b, q) = (check_link_lem attrs).1 (r.link l) in (b, ground (arith, e, l, q))
            | inr l ↦ elim (Bool-cases (is_named "externalLink" type)) [
              | inl x ↦
                  let (b, q) =
                    (check_external_link_lem (property? "href" attrs)).1 (r.external x) in
                  (b, ground (arith, e, l, x, q))
              | inr x ↦ (true, ground (arith, e, l, x))
            ]
          ]
        ],
      )
