-- ===== src/Cache/Stores.antt =====
-- What apps/cms/server/utils/taggedCache.ts uses of its two stores: the values of unstorage, and the
-- sets of Redis. Both drop an element when its deadline passes. Times are milliseconds, a time to live
-- is in seconds. The laws state what EXPIRE, SADD, SMEMBERS and DEL are documented to do.
use boject_cms.Common.{
  ℕ, ◌+◌, ◌*◌, ◌<◌, ◌≡◌, String, ◌==◌, Bool, true, false, ◌&&◌, ◌||◌, not, ltb, List, Option, none,
  some, if◌then◌else◌, string_eq, has,
}
use mathlib.Core.Option

-- Whether a deadline, if there is one, still lies ahead.
abbrev pub alive : ℕ → Option ℕ → Bool
alive now none = true
alive now (some d) = ltb now d

abbrev pub deadline : ℕ → Option ℕ → Option ℕ
deadline now ttl = Option.map (λ n. now + n * 1000) ttl

-- EXPIRE with NX, and with GT, where no deadline counts as the farthest.
abbrev pub not_set : ℕ → Option ℕ → Option ℕ
not_set at none = some at
not_set at (some d) = some d

abbrev pub greater : ℕ → Option ℕ → Option ℕ
greater at none = none
greater at (some d) = if ltb d at then some at else some d

pub record Stores (V : Type 0) : Type 1 where
  pub State : Type 0
  -- A value with its deadline, the members of a set, and the deadline of a set.
  pub item : String → State → Option (V × Option ℕ)
  pub member : String → String → State → Bool
  pub until : String → State → Option ℕ
  pub set_item : ℕ → String → V → Option ℕ → State → State
  pub remove_item : String → State → State
  pub sadd : ℕ → String → String → State → State
  pub expire_nx : ℕ → String → ℕ → State → State
  pub expire_gt : ℕ → String → ℕ → State → State
  pub smembers : ℕ → String → State → List String
  pub del : String → State → State

pub record StoreLaws {V : Type 0} (db : Stores V) : Type 0 where
  pub item-set_item :
      (now : ℕ) (k j : String) (v : V) (ttl : Option ℕ) (s : db.State)
      → db.item j (db.set_item now k v ttl s)
        ≡ (if k == j then some (v, deadline now ttl) else db.item j s)
  pub item-remove_item :
      (k j : String) (s : db.State)
      → db.item j (db.remove_item k s) ≡ (if k == j then none else db.item j s)
  pub member-sadd :
      (now : ℕ) (q r k j : String) (s : db.State)
      → db.member r j (db.sadd now q k s) ≡ (
          if q == r then k == j || alive now (db.until r s) && db.member r j s else db.member r j s)
  pub until-sadd :
      (now : ℕ) (q r k : String) (s : db.State)
      → db.until r (db.sadd now q k s)
        ≡ (if q == r && not (alive now (db.until r s)) then none else db.until r s)
  -- A set that is there, which one with a member is.
  pub until-expire_nx :
      (now n : ℕ) (q r k : String) (s : db.State)
      → db.member q k s ≡ true
      → alive now (db.until q s) ≡ true
      → db.until r (db.expire_nx now q n s)
        ≡ (if q == r then not_set (now + n * 1000) (db.until q s) else db.until r s)
  pub until-expire_gt :
      (now n : ℕ) (q r k : String) (s : db.State)
      → db.member q k s ≡ true
      → alive now (db.until q s) ≡ true
      → db.until r (db.expire_gt now q n s)
        ≡ (if q == r then greater (now + n * 1000) (db.until q s) else db.until r s)
  pub smembers_lem :
      (now : ℕ) (q k : String) (s : db.State)
      → has k (db.smembers now q s) ≡ (alive now (db.until q s) && db.member q k s)
  pub member-del :
      (q r k : String) (s : db.State)
      → db.member r k (db.del q s) ≡ (if q == r then false else db.member r k s)
  pub until-del :
      (q r : String) (s : db.State)
      → db.until r (db.del q s) ≡ (if q == r then none else db.until r s)
  -- A deadline ahead does not take members away, and the two stores are apart.
  pub member-expire_nx :
      (now n : ℕ) (q r k : String) (s : db.State)
      → 0 < n
      → db.member r k (db.expire_nx now q n s) ≡ db.member r k s
  pub member-expire_gt :
      (now n : ℕ) (q r k : String) (s : db.State)
      → 0 < n
      → db.member r k (db.expire_gt now q n s) ≡ db.member r k s
  pub member-set_item :
      (now : ℕ) (k r j : String) (v : V) (ttl : Option ℕ) (s : db.State)
      → db.member r j (db.set_item now k v ttl s) ≡ db.member r j s
  pub until-set_item :
      (now : ℕ) (k r : String) (v : V) (ttl : Option ℕ) (s : db.State)
      → db.until r (db.set_item now k v ttl s) ≡ db.until r s
  pub member-remove_item :
      (k r j : String) (s : db.State) → db.member r j (db.remove_item k s) ≡ db.member r j s
  pub until-remove_item :
      (k r : String) (s : db.State) → db.until r (db.remove_item k s) ≡ db.until r s
  pub item-sadd :
      (now : ℕ) (q k j : String) (s : db.State) → db.item j (db.sadd now q k s) ≡ db.item j s
  pub item-expire_nx :
      (now n : ℕ) (q j : String) (s : db.State) → db.item j (db.expire_nx now q n s) ≡ db.item j s
  pub item-expire_gt :
      (now n : ℕ) (q j : String) (s : db.State) → db.item j (db.expire_gt now q n s) ≡ db.item j s
  pub item-del : (q j : String) (s : db.State) → db.item j (db.del q s) ≡ db.item j s
