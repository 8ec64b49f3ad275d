-- ===== src/Cache/Refinement.antt =====
-- The tagged cache keeps its contract.
use boject_cms.Common.{
  ℕ, ◌≡◌, refl, sym, ap, ◌∙◌, String, ◌==◌, eq_iff, true, false, List, [], ◌∷◌, ◌++◌, Option, none,
  some, if◌then◌else◌, arith, string_eq, has, has-append, has-distinct, distinct,
}
use boject_cms.Cache.Stores.{Stores, StoreLaws, alive}
use boject_cms.Cache.Tagged.{ttl_key, persistent_key, live, get, remove_items, invalidate_by_tag}
use boject_cms.Cache.Keys.{
  ttl_key-persistent_key, persistent_key-ttl_key, ttl_key_injective, persistent_key_injective,
}
use boject_cms.Cache.Index.{is_covered}
use boject_cms.Cache.Contract.{
  Contract, Operation, write, invalidate, without_tag, apply_spec, value_in, run_spec, IsTimed,
  run_cache, IsEmpty, Refines,
}
use boject_cms.Cache.Writes.{later-Refines, set-Refines}

module _ {V : Type 0} (db : Stores V) (laws : StoreLaws db) where
  remove_items-item :
      (keys : List String) (j : String) (s : db.State)
      → db.item j (remove_items db keys s) ≡ (if has j keys then none else db.item j s)
  unfolding remove_items has
  remove_items-item [] j s = refl
  remove_items-item (k ∷ keys) j s =
      ground (arith, remove_items-item keys j (db.remove_item k s), laws.item-remove_item k j s)

  remove_items-member :
      (keys : List String) (q j : String) (s : db.State)
      → db.member q j (remove_items db keys s) ≡ db.member q j s
  unfolding remove_items
  remove_items-member [] q j s = refl
  remove_items-member (k ∷ keys) q j s =
      remove_items-member keys q j (db.remove_item k s) ∙ laws.member-remove_item k q j s

  remove_items-until :
      (keys : List String) (q : String) (s : db.State)
      → db.until q (remove_items db keys s) ≡ db.until q s
  unfolding remove_items
  remove_items-until [] q s = refl
  remove_items-until (k ∷ keys) q s =
      remove_items-until keys q (db.remove_item k s) ∙ laws.until-remove_item k q s

  -- An invalidation, for one key that is looked up behind it.
  module _ (now : ℕ) (tag : String) (c : Contract V) (s : db.State) (r : Refines db now c s) where
    abbrev cleared : List String
    cleared = distinct (db.smembers now (ttl_key tag) s ++ db.smembers now (persistent_key tag) s)

    -- The keys of the tag are among the members that are read.
    covered-cleared :
        (k : String) (d : Option ℕ)
        → alive now d ≡ true
        → is_covered db d tag k s ≡ true
        → has k cleared ≡ true
    covered-cleared k none a h = ground (
      arith,
      has-distinct k (db.smembers now (ttl_key tag) s ++ db.smembers now (persistent_key tag) s),
      has-append k (db.smembers now (ttl_key tag) s) (db.smembers now (persistent_key tag) s),
      laws.smembers_lem now (persistent_key tag) k s,
      r.lasting tag,
    )
    covered-cleared k (some e) a h = ground (
      arith,
      has-distinct k (db.smembers now (ttl_key tag) s ++ db.smembers now (persistent_key tag) s),
      has-append k (db.smembers now (ttl_key tag) s) (db.smembers now (persistent_key tag) s),
      laws.smembers_lem now (ttl_key tag) k s,
    )

    del-covered :
        (t : db.State) (d : Option ℕ) (other k : String)
        → tag == other ≡ false
        → is_covered db d other k t ≡ true
        → is_covered db d other k (db.del (persistent_key tag) (db.del (ttl_key tag) t)) ≡ true
    del-covered t none other k n h = ground (
      arith,
      laws.member-del (persistent_key tag) (persistent_key other) k (db.del (ttl_key tag) t),
      laws.member-del (ttl_key tag) (persistent_key other) k t,
      ttl_key-persistent_key tag other,
      persistent_key_injective tag other,
      eq_iff tag other,
    )
    del-covered t (some e) other k n h = ground (
      arith,
      laws.member-del (persistent_key tag) (ttl_key other) k (db.del (ttl_key tag) t),
      laws.member-del (ttl_key tag) (ttl_key other) k t,
      persistent_key-ttl_key other tag,
      laws.until-del (persistent_key tag) (ttl_key other) (db.del (ttl_key tag) t),
      laws.until-del (ttl_key tag) (ttl_key other) t,
      ttl_key_injective tag other,
      eq_iff tag other,
    )

    removed-covered :
        (keys : List String) (d : Option ℕ) (other k : String)
        → is_covered db d other k s ≡ true
        → is_covered db d other k (remove_items db keys s) ≡ true
    removed-covered keys none other k h = remove_items-member keys (persistent_key other) k s ∙ h
    removed-covered keys (some e) other k h = ground (
      arith,
      remove_items-member keys (ttl_key other) k s,
      remove_items-until keys (ttl_key other) s,
    )

    invalidate-item :
        (j : String)
        → db.item j (invalidate_by_tag db now tag s) ≡ (if has j cleared then none else db.item j s)
    unfolding invalidate_by_tag
    invalidate-item j =
        laws.item-del (persistent_key tag) j (db.del (ttl_key tag) (remove_items db cleared s))
        ∙ laws.item-del (ttl_key tag) j (remove_items db cleared s)
        ∙ remove_items-item cleared j s

    invalidate-hit :
        (k : String) (w : V) (d : Option ℕ)
        → db.item k (invalidate_by_tag db now tag s) ≡ some (w, d)
        → alive now d ≡ true
        → (ts : List String) × (without_tag tag (c k)
            ≡ some (record { value = w; ends = d; tags = ts }))
          × ((other : String)
              → has other ts ≡ true
              → is_covered db d other k (invalidate_by_tag db now tag s) ≡ true)
    unfolding invalidate_by_tag
    invalidate-hit k w d i a =
        let i' : (if has k cleared then none else db.item k s) ≡ some (w, d) =
          sym (invalidate-item k) ∙ i in
        let kept : has k cleared ≡ false = ground (arith, i') in
        let old = r.hit k w d (ground (arith, i', kept)) a in
        let free : has tag old.0 ≡ false = ground (arith, covered-cleared k d a, old.2 tag, kept) in
        (
          old.0,
          (rw (old.1, free) refl),
          λ other h.
              let apart : tag == other ≡ false =
                ground (
                  arith,
                  eq_iff tag other,
                  free,
                  h,
                  λ (e : tag ≡ other). ap (λ x. has x old.0) e,
                ) in
              del-covered (remove_items db cleared s) d other k apart
                (removed-covered cleared d other k (old.2 other h)),
        )

    invalidate-Refines :
        Refines db now (apply_spec now (invalidate tag) c) (invalidate_by_tag db now tag s)
    unfolding invalidate_by_tag
    invalidate-Refines = record {
      hit = invalidate-hit;
      lasting = λ other. ground (
        arith,
        laws.until-del (persistent_key tag) (persistent_key other)
            (db.del (ttl_key tag) (remove_items db cleared s)),
        laws.until-del (ttl_key tag) (persistent_key other) (remove_items db cleared s),
        remove_items-until cleared (persistent_key other) s,
        r.lasting other,
      );
    }

  run-Refines :
      (start end : ℕ) (ops : List (ℕ × Operation V)) (c : Contract V) (s : db.State)
      → IsTimed start ops end
      → Refines db start c s
      → Refines db end (run_spec ops c) (run_cache db ops s)
  run-Refines start end [] c s t r = later-Refines db laws start end c s t r
  run-Refines start end ((now, write key v tags ttl) ∷ ops) c s t r =
      run-Refines now end ops _ _ t.2
        (set-Refines db laws now key v tags ttl c s t.1 (later-Refines db laws start now c s t.0 r))
  run-Refines start end ((now, invalidate tag) ∷ ops) c s t r =
      run-Refines now end ops _ _ t.1
        (invalidate-Refines now tag c s (later-Refines db laws start now c s t.0 r))

  empty-Refines : (s : db.State) → IsEmpty db s → Refines db 0 (λ k. none) s
  empty-Refines s e = record {
    hit = λ k v d i a. absurd (ground (arith, e.no_item k));
    lasting = e.no_index;
  }

  -- A hit is never stale. From empty stores, after writes and invalidations at times that do not go
  -- back, with times to live of at least a second, a value that the cache returns is the one last
  -- written for the key, it has not ended, and none of its tags was invalidated since.
  pub get-run_cache :
      (ops : List (ℕ × Operation V)) (end : ℕ) (s : db.State) (k : String) (v : V)
      → IsTimed 0 ops end
      → IsEmpty db s
      → get db end k (run_cache db ops s) ≡ some v
      → value_in end (run_spec ops (λ j. none) k) ≡ some v
  unfolding get
  get-run_cache ops end s k v t e h = found (db.item k (run_cache db ops s)) refl h
    where
      r : Refines db end (run_spec ops (λ j. none)) (run_cache db ops s)
      r = run-Refines 0 end ops (λ j. none) s t (empty-Refines s e)

      found :
          (o : Option (V × Option ℕ))
          → db.item k (run_cache db ops s) ≡ o
          → live end o ≡ some v
          → value_in end (run_spec ops (λ j. none) k) ≡ some v
      found none i h' = absurd (ground arith)
      found (some (w, d)) i h' =
          let a : alive end d ≡ true = ground arith in
          let old = r.hit k w d i a in rw (old.1, a) (ground (arith, a))
