-- ===== src/Cache/MapStores.antt =====
-- Stores that are kept as functions: an instance of the interface and its laws.
use boject_cms.Common.{
  ℕ, ◌+◌, ◌*◌, refl, String, ◌==◌, ◌&&◌, not, List, [], ◌∷◌, Option, none, some, if◌then◌else◌,
  arith, string_eq, has,
}
use boject_cms.Cache.Stores.{Stores, StoreLaws, alive, deadline, not_set, greater}

pub record Maps (V : Type 0) : Type 0 where
  pub items : String → Option (V × Option ℕ)
  pub sets : String → List String
  pub ends : String → Option ℕ

abbrev with_ends : {V : Type 0} → Maps V → (String → Option ℕ) → Maps V
with_ends s e = record s { ends = e }

abbrev pub map_stores : (V : Type 0) → Stores V
map_stores V = record {
  State = Maps V;
  item = λ k s. s.items k;
  member = λ q k s. has k (s.sets q);
  until = λ q s. s.ends q;
  set_item = λ now k v ttl s. record s {
    items = λ j. if k == j then some (v, deadline now ttl) else s.items j;
  };
  remove_item = λ k s. record s { items = λ j. if k == j then none else s.items j };
  sadd = λ now q k s. record s {
    sets = λ r. if q == r then k ∷ (if alive now (s.ends r) then s.sets r else []) else s.sets r;
    ends = λ r. if q == r && not (alive now (s.ends r)) then none else s.ends r;
  };
  expire_nx = λ now q n s.
      with_ends s λ r. if q == r then not_set (now + n * 1000) (s.ends q) else s.ends r;
  expire_gt = λ now q n s.
      with_ends s λ r. if q == r then greater (now + n * 1000) (s.ends q) else s.ends r;
  smembers = λ now q s. if alive now (s.ends q) then s.sets q else [];
  del = λ q s. record s {
    sets = λ r. if q == r then [] else s.sets r;
    ends = λ r. if q == r then none else s.ends r;
  };
}

abbrev pub no_entries : (V : Type 0) → Maps V
no_entries V = record { items = λ k. none; sets = λ q. []; ends = λ q. none }

pub map_stores-StoreLaws : (V : Type 0) → StoreLaws (map_stores V)
unfolding has
map_stores-StoreLaws V = record {
  item-set_item = λ now k j v ttl s. refl;
  item-remove_item = λ k j s. refl;
  member-sadd = λ now q r k j s. ground arith;
  until-sadd = λ now q r k s. refl;
  until-expire_nx = λ now n q r k s m a. refl;
  until-expire_gt = λ now n q r k s m a. refl;
  smembers_lem = λ now q k s. ground arith;
  member-del = λ q r k s. ground arith;
  until-del = λ q r s. refl;
  member-expire_nx = λ now n q r k s p. refl;
  member-expire_gt = λ now n q r k s p. refl;
  member-set_item = λ now k r j v ttl s. refl;
  until-set_item = λ now k r v ttl s. refl;
  member-remove_item = λ k r j s. refl;
  until-remove_item = λ k r s. refl;
  item-sadd = λ now q k j s. refl;
  item-expire_nx = λ now n q j s. refl;
  item-expire_gt = λ now n q j s. refl;
  item-del = λ q j s. refl;
}
