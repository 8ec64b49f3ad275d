-- ===== src/Cache/Writes.antt =====
-- What a write to the tagged cache does to the contract.
use mathlib.Core.Path.{subst}
use boject_cms.Common.{
  ℕ, ◌≤◌, ◌≡◌, refl, sym, ◌∙◌, String, ◌==◌, eq_iff, eq_refl, true, false, List, Option, none, some,
  if◌then◌else◌, arith, string_eq, has, Bool-cases, inl, inr,
}
use boject_cms.Cache.Stores.{Stores, StoreLaws, alive, deadline}
use boject_cms.Cache.Tagged.{ttl_key, persistent_key, set, get}
use boject_cms.Cache.Index.{
  Positive, is_covered, IsLasting, index_tags-item, index_tags-IsLasting, index_tags-is_covered,
  index_tags-covers,
}
use boject_cms.Cache.Contract.{Contract, write, apply_spec, Refines}

module _ {V : Type 0} (db : Stores V) (laws : StoreLaws db) where
  alive_before : (t now : ℕ) (d : Option ℕ) → t ≤ now → alive now d ≡ true → alive t d ≡ true
  alive_before t now none h a = refl
  alive_before t now (some e) h a = ground arith

  pub later-Refines :
      (t now : ℕ) (c : Contract V) (s : db.State) → t ≤ now → Refines db t c s → Refines db now c s
  later-Refines t now c s h r = record {
    hit = λ k v d i a. r.hit k v d i (alive_before t now d h a);
    lasting = r.lasting;
  }

  set_item-is_covered :
      (now : ℕ) (key : String) (v : V) (ttl : Option ℕ) (s : db.State) (d : Option ℕ)
      (tag k : String)
      → is_covered db d tag k s ≡ true
      → is_covered db d tag k (db.set_item now key v ttl s) ≡ true
  set_item-is_covered now key v ttl s none tag k c =
      laws.member-set_item now key (persistent_key tag) k v ttl s ∙ c
  set_item-is_covered now key v ttl s (some e) tag k c = ground (
    arith,
    laws.member-set_item now key (ttl_key tag) k v ttl s,
    laws.until-set_item now key (ttl_key tag) v ttl s,
  )

  -- A write, for one key that is looked up behind it.
  module _ (now : ℕ) (key : String) (v : V) (tags : List String) (ttl : Option ℕ) (c : Contract V)
      (s : db.State) (p : Positive ttl) (r : Refines db now c s) where
    abbrev Hit : String → V → Option ℕ → Type 0
    Hit k w d =
        (ts : List String) × (apply_spec now (write key v tags ttl) c k
          ≡ some (record { value = w; ends = d; tags = ts }))
        × ((tag : String)
            → has tag ts ≡ true
            → is_covered db d tag k (set db now key v tags ttl s) ≡ true)

    item-IsLasting : IsLasting db (db.set_item now key v ttl s)
    item-IsLasting tag = laws.until-set_item now key (persistent_key tag) v ttl s ∙ r.lasting tag

    set-own : Hit key v (deadline now ttl)
    unfolding set
    set-own = (
      tags,
      (rw (eq_refl key) refl),
      λ tag h.
          index_tags-covers db laws now key ttl tags (db.set_item now key v ttl s) p item-IsLasting
            tag h,
    )

    set-other :
        (k : String) (w : V) (d : Option ℕ)
        → key == k ≡ false
        → db.item k s ≡ some (w, d)
        → alive now d ≡ true
        → Hit k w d
    unfolding set
    set-other k w d miss i a =
        let old = r.hit k w d i a in
        (
          old.0,
          (rw miss old.1),
          λ tag h.
              index_tags-is_covered db laws now key ttl tags (db.set_item now key v ttl s) p
                item-IsLasting d tag k a
                (set_item-is_covered now key v ttl s d tag k (old.2 tag h)),
        )

    set-Hit :
        (k : String) (w : V) (d : Option ℕ)
        → db.item k (set db now key v tags ttl s) ≡ some (w, d)
        → alive now d ≡ true
        → Hit k w d
    unfolding set
    set-Hit k w d i a =
        let i' : (if key == k then some (v, deadline now ttl) else db.item k s) ≡ some (w, d) =
          sym (laws.item-set_item now key k v ttl s)
          ∙ sym (index_tags-item db laws now key ttl tags (db.set_item now key v ttl s) k)
          ∙ i in
        elim (Bool-cases (key == k)) [
          | inr miss ↦ set-other k w d miss (ground (arith, i', miss)) a
          | inl own ↦
              let ev : v ≡ w = ground (arith, i', own) in
              let ed : deadline now ttl ≡ d = ground (arith, i', own) in
              subst (λ x. Hit x w d) ((eq_iff key k).0 own)
                (subst (λ x. Hit key x d) ev (subst (λ x. Hit key v x) ed set-own))
        ]

    pub set-Refines :
        Refines db now (apply_spec now (write key v tags ttl) c) (set db now key v tags ttl s)
    unfolding set
    set-Refines = record {
      hit = set-Hit;
      lasting =
          index_tags-IsLasting db laws now key ttl tags (db.set_item now key v ttl s) p
            item-IsLasting;
    }

  -- A value that was just written is read back until its time to live is over, and the other keys
  -- read as before.
  pub get-set :
      (now later : ℕ) (key j : String) (v : V) (tags : List String) (ttl : Option ℕ) (s : db.State)
      → get db later j (set db now key v tags ttl s) ≡ (
          if key == j
          then (if alive later (deadline now ttl) then some v else none)
          else get db later j s)
  unfolding get set
  get-set now later key j v tags ttl s = ground (
    arith,
    index_tags-item db laws now key ttl tags (db.set_item now key v ttl s) j,
    laws.item-set_item now key j v ttl s,
  )
