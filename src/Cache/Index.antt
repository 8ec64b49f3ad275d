-- ===== src/Cache/Index.antt =====
-- What the indexes of the tagged cache keep: a value that lives on is a member of the index of each
-- of its tags, and that index does not end before it.
use boject_cms.Common.{
  ℕ, ◌+◌, ◌*◌, ◌<◌, ◌≡◌, refl, ap, ◌∙◌, String, ◌==◌, eq_iff, eq_refl, Bool, true, false, ◌&&◌, leb,
  List, [], ◌∷◌, Option, none, some, if◌then◌else◌, arith, string_eq, has, Bool-cases, inl, inr,
}
use mathlib.Core.Path.{subst}
use boject_cms.Cache.Stores.{Stores, StoreLaws, alive, deadline, not_set, greater}
use boject_cms.Cache.Tagged.{ttl_key, persistent_key, index_tag, index_tags}
use boject_cms.Cache.Keys.{ttl_key-persistent_key, persistent_key-ttl_key}

-- Whether a set is there until a time.
abbrev pub outlasts : Option ℕ → ℕ → Bool
outlasts none e = false
outlasts (some f) e = leb e f

abbrev pub Positive : Option ℕ → Type 0
Positive none = Unit
Positive (some n) = 0 < n

module _ {V : Type 0} (db : Stores V) where
  -- A key with a deadline is in the index of the tag that ends; one without is in the other.
  abbrev pub is_covered : Option ℕ → String → String → db.State → Bool
  is_covered none tag k s = db.member (persistent_key tag) k s
  is_covered (some e) tag k s = db.member (ttl_key tag) k s && outlasts (db.until (ttl_key tag) s) e

  abbrev pub IsLasting : db.State → Type 0
  IsLasting s = (tag : String) → db.until (persistent_key tag) s ≡ none

module _ {V : Type 0} (db : Stores V) (laws : StoreLaws db) where
  deadline-alive : (now : ℕ) (ttl : Option ℕ) → Positive ttl → alive now (deadline now ttl) ≡ true
  deadline-alive now none p = refl
  deadline-alive now (some n) p = ground arith

  -- The commands for a tag with a time to live, on the set of one index.
  expiring : ℕ → ℕ → String → String → db.State → db.State
  expiring now n q key s = db.expire_gt now q n (db.expire_nx now q n (db.sadd now q key s))

  module _ (now n : ℕ) (q key : String) (s : db.State) (pos : 0 < n) where
    added-alive : alive now (db.until q (db.sadd now q key s)) ≡ true
    added-alive = ground (arith, laws.until-sadd now q q key s, eq_refl q)

    added-member : db.member q key (db.sadd now q key s) ≡ true
    added-member = ground (arith, laws.member-sadd now q q key key s, eq_refl q, eq_refl key)

    until-nx :
        (r : String)
        → db.until r (db.expire_nx now q n (db.sadd now q key s)) ≡ (
            if q == r
            then not_set (now + n * 1000) (db.until q (db.sadd now q key s))
            else db.until r (db.sadd now q key s))
    until-nx r = laws.until-expire_nx now n q r key (db.sadd now q key s) added-member added-alive

    until-expiring :
        (r : String)
        → db.until r (expiring now n q key s) ≡ (
            if q == r
            then greater
                (now + n * 1000)
                (not_set (now + n * 1000) (db.until q (db.sadd now q key s)))
            else db.until r s)
    unfolding expiring
    until-expiring r =
        let t = db.expire_nx now q n (db.sadd now q key s) in
        let there : db.member q key t ≡ true =
          laws.member-expire_nx now n q q key (db.sadd now q key s) pos ∙ added-member in
        let lives : alive now (db.until q t) ≡ true =
          ground (arith, until-nx q, eq_refl q, added-alive) in
        ground (
          arith,
          laws.until-expire_gt now n q r key t there lives,
          until-nx q,
          until-nx r,
          eq_refl q,
          laws.until-sadd now q r key s,
        )

    member-expiring :
        (r j : String)
        → db.member r j (expiring now n q key s) ≡ db.member r j (db.sadd now q key s)
    unfolding expiring
    member-expiring r j =
        laws.member-expire_gt now n q r j (db.expire_nx now q n (db.sadd now q key s)) pos
        ∙ laws.member-expire_nx now n q r j (db.sadd now q key s) pos

  index_tag-IsLasting :
      (now : ℕ) (key tag : String) (ttl : Option ℕ) (s : db.State)
      → Positive ttl
      → IsLasting db s
      → IsLasting db (index_tag db now key ttl tag s)
  unfolding index_tag expiring
  index_tag-IsLasting now key tag none s p l other =
      ground (
        arith,
        laws.until-sadd now (persistent_key tag) (persistent_key other) key s,
        l other,
        l tag,
      )
  index_tag-IsLasting now key tag (some n) s p l other = ground (
    arith,
    until-expiring now n (ttl_key tag) key s p (persistent_key other),
    l other,
    ttl_key-persistent_key tag other,
  )

  -- What is covered stays covered while it lives.
  index_tag-is_covered :
      (now : ℕ) (key tag : String) (ttl : Option ℕ) (s : db.State)
      → Positive ttl
      → IsLasting db s
      → (d : Option ℕ) (other k : String) → alive now d ≡ true
      → is_covered db d other k s ≡ true
      → is_covered db d other k (index_tag db now key ttl tag s) ≡ true
  unfolding index_tag expiring
  index_tag-is_covered now key tag none s p l none other k a c =
      ground
        (arith, laws.member-sadd now (persistent_key tag) (persistent_key other) key k s, l other)
  index_tag-is_covered now key tag none s p l (some e) other k a c = ground (
    arith,
    laws.member-sadd now (persistent_key tag) (ttl_key other) key k s,
    laws.until-sadd now (persistent_key tag) (ttl_key other) key s,
    persistent_key-ttl_key other tag,
  )
  index_tag-is_covered now key tag (some n) s p l none other k a c = ground (
    arith,
    laws.member-sadd now (ttl_key tag) (persistent_key other) key k s,
    member-expiring now n (ttl_key tag) key s p (persistent_key other) k,
    ttl_key-persistent_key tag other,
  )
  index_tag-is_covered now key tag (some n) s p l (some e) other k a c =
      let same : ttl_key tag == ttl_key other ≡ true
          → db.until (ttl_key tag) s ≡ db.until (ttl_key other) s =
        λ h. ap (λ q. db.until q s) ((eq_iff (ttl_key tag) (ttl_key other)).0 h) in
      ground (
        arith,
        laws.member-sadd now (ttl_key tag) (ttl_key other) key k s,
        same,
        member-expiring now n (ttl_key tag) key s p (ttl_key other) k,
        until-expiring now n (ttl_key tag) key s p (ttl_key other),
        laws.until-sadd now (ttl_key tag) (ttl_key tag) key s,
      )

  -- The key that is written is covered under the tag.
  index_tag-covers :
      (now : ℕ) (key tag : String) (ttl : Option ℕ) (s : db.State)
      → Positive ttl
      → is_covered db (deadline now ttl) tag key (index_tag db now key ttl tag s) ≡ true
  unfolding index_tag expiring
  index_tag-covers now key tag none s p = ground (
    arith,
    laws.member-sadd now (persistent_key tag) (persistent_key tag) key key s,
    eq_refl (persistent_key tag),
    eq_refl key,
  )
  index_tag-covers now key tag (some n) s p = ground (
    arith,
    laws.member-sadd now (ttl_key tag) (ttl_key tag) key key s,
    eq_refl (ttl_key tag),
    member-expiring now n (ttl_key tag) key s p (ttl_key tag) key,
    until-expiring now n (ttl_key tag) key s p (ttl_key tag),
    eq_refl key,
  )

  index_tag-item :
      (now : ℕ) (key tag : String) (ttl : Option ℕ) (s : db.State) (j : String)
      → db.item j (index_tag db now key ttl tag s) ≡ db.item j s
  unfolding index_tag
  index_tag-item now key tag none s j = laws.item-sadd now (persistent_key tag) key j s
  index_tag-item now key tag (some n) s j = ground (
    arith,
    laws.item-sadd now (ttl_key tag) key j s,
    laws.item-expire_nx now n (ttl_key tag) j (db.sadd now (ttl_key tag) key s),
    laws.item-expire_gt now n (ttl_key tag) j
        (db.expire_nx now (ttl_key tag) n (db.sadd now (ttl_key tag) key s)),
  )

  -- The same for all the tags of a write.
  pub index_tags-item :
      (now : ℕ) (key : String) (ttl : Option ℕ) (tags : List String) (s : db.State) (j : String)
      → db.item j (index_tags db now key ttl tags s) ≡ db.item j s
  unfolding index_tags
  index_tags-item now key ttl [] s j = refl
  index_tags-item now key ttl (tag ∷ tags) s j =
      index_tags-item now key ttl tags (index_tag db now key ttl tag s) j
      ∙ index_tag-item now key tag ttl s j

  pub index_tags-IsLasting :
      (now : ℕ) (key : String) (ttl : Option ℕ) (tags : List String) (s : db.State)
      → Positive ttl
      → IsLasting db s
      → IsLasting db (index_tags db now key ttl tags s)
  unfolding index_tags
  index_tags-IsLasting now key ttl [] s p l = l
  index_tags-IsLasting now key ttl (tag ∷ tags) s p l =
      index_tags-IsLasting now key ttl tags (index_tag db now key ttl tag s) p
        (index_tag-IsLasting now key tag ttl s p l)

  pub index_tags-is_covered :
      (now : ℕ) (key : String) (ttl : Option ℕ) (tags : List String) (s : db.State)
      → Positive ttl
      → IsLasting db s
      → (d : Option ℕ) (other k : String) → alive now d ≡ true
      → is_covered db d other k s ≡ true
      → is_covered db d other k (index_tags db now key ttl tags s) ≡ true
  unfolding index_tags
  index_tags-is_covered now key ttl [] s p l d other k a c = c
  index_tags-is_covered now key ttl (tag ∷ tags) s p l d other k a c =
      index_tags-is_covered now key ttl tags (index_tag db now key ttl tag s) p
        (index_tag-IsLasting now key tag ttl s p l) d other k a
        (index_tag-is_covered now key tag ttl s p l d other k a c)

  pub index_tags-covers :
      (now : ℕ) (key : String) (ttl : Option ℕ) (tags : List String) (s : db.State)
      → Positive ttl
      → IsLasting db s
      → (tag : String) → has tag tags ≡ true
      → is_covered db (deadline now ttl) tag key (index_tags db now key ttl tags s) ≡ true
  unfolding index_tags has
  index_tags-covers now key ttl [] s p l tag h = absurd (ground arith)
  index_tags-covers now key ttl (t ∷ tags) s p l tag h =
      let lasting = index_tag-IsLasting now key t ttl s p l in
      elim (Bool-cases (t == tag)) [
        | inl hit ↦
            index_tags-is_covered now key ttl tags _ p lasting (deadline now ttl) tag key
              (deadline-alive now ttl p)
              (subst
                (λ x. is_covered db (deadline now ttl) x key (index_tag db now key ttl t s) ≡ true)
                ((eq_iff t tag).0 hit) (index_tag-covers now key t ttl s p))
        | inr miss ↦ index_tags-covers now key ttl tags _ p lasting tag (ground (arith, miss))
      ]
