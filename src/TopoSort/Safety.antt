-- ===== src/TopoSort/Safety.antt =====
-- What the sort keeps on the way, and what its order and its deferred edges are in the end.
use boject_cms.Common.{
  ◌+◌, ◌≡◌, ◌≢◌, refl, ◌⊎◌, inl, inr, String, ◌==◌, eq_iff, Bool, true, false, ◌&&◌, List, [], ◌∷◌,
  ◌++◌, not, if◌then◌else◌, arith, string_eq, has, erase, distinct, count, has-append, has-filter,
  has-erase, erase-has, has-count, count-append, count-filter, count-distinct, not_any, Bool-cases,
  same_refl,
}
use boject_cms.TopoSort.Sort.{
  Edge, edge_eq, Remaining, TopoSortResult, sorted, out_of_fuel, is_blocked, in_cycle, place, defer,
  start, topo_sort,
}
use boject_cms.TopoSort.Loop.{
  Progress, placed, put_off, Stop, done, stuck, run_rule, round-finished,
}

-- Whether the first text stands before every occurrence of the second, and the second is there.
unfoldable pub is_before : String → String → List String → Bool
is_before a b [] = false
is_before a b (x ∷ xs) =
    let later = is_before a b xs in if x == b then false else if x == a then has b xs else later

is_before-append :
    (a b : String) (xs ys : List String) → is_before a b xs ≡ true → is_before a b (xs ++ ys) ≡ true
unfolding is_before
is_before-append a b [] ys h = absurd (ground arith)
is_before-append a b (x ∷ xs) ys h = ground (arith, has-append b xs ys, is_before-append a b xs ys)

is_before-last :
    (a b : String) (xs : List String)
    → has a xs ≡ true
    → has b xs ≡ false
    → is_before a b (xs ++ b ∷ []) ≡ true
unfolding is_before has
is_before-last a b [] h f = absurd (ground arith)
is_before-last a b (x ∷ xs) h f =
    ground (arith, has-append b xs (b ∷ []), is_before-last a b xs, same_refl b)

pub record Kept (identifiers : List String) (edges : List Edge) (s : Remaining) : Type 0 where
  pub once : (n : String) → count n s.nodes + count n s.order ≡ count n (distinct identifiers)
  pub known : (e : Edge) → has e s.edges ≡ true → has e edges ≡ true
  pub fresh : (e : Edge) → has e s.edges ≡ true → has e.from s.order ≡ false
  pub settled :
      (e : Edge)
      → has e edges ≡ true
      → in_cycle identifiers e ≡ true
      → (has e s.edges ≡ true)
        ⊎ ((has e s.deferred ≡ true) ⊎ (is_before e.to e.from s.order ≡ true))
  pub optional :
      (e : Edge)
      → has e s.deferred ≡ true
      → (has e edges ≡ true) × (e.required ≡ false) × (in_cycle identifiers e ≡ true)

-- An identifier is among the remaining nodes or placed, not both.
module _ (ids : List String) (edges : List Edge) (s : Remaining) (k : Kept ids edges s) where
  pub nodes-known : (n : String) → has n s.nodes ≡ true → has n ids ≡ true
  nodes-known n h =
      ground (arith, k.once n, has-count n s.nodes, has-count n ids, count-distinct n ids)

  placed-known : (n : String) → has n ids ≡ true → has n s.nodes ≡ false → has n s.order ≡ true
  placed-known n h f = ground (
    arith,
    k.once n,
    has-count n s.nodes,
    has-count n s.order,
    has-count n ids,
    count-distinct n ids,
  )

  placed-once : (n : String) → has n s.nodes ≡ true → count n s.nodes ≡ 1
  placed-once n h =
      ground (arith, k.once n, has-count n s.nodes, has-count n ids, count-distinct n ids)

  not-placed : (n : String) → has n s.nodes ≡ true → has n s.order ≡ false
  not-placed n h = ground (
    arith,
    k.once n,
    has-count n s.nodes,
    has-count n s.order,
    has-count n ids,
    count-distinct n ids,
  )

  place-Kept :
      (r : String)
      → has r s.nodes ≡ true
      → is_blocked s.nodes s.edges r ≡ false
      → Kept ids edges (place r s)
  unfolding has count
  place-Kept r m free = record {
    once = λ n. ground (
      arith,
      k.once n,
      count-filter (λ x. not (x == r)) n s.nodes,
      count-append n s.order (r ∷ []),
      eq_iff n r,
      eq_iff r n,
      placed-once n,
    );
    known =
        λ e h. ground (arith, has-filter (λ (f : Edge). not (f.from == r)) e s.edges, k.known e);
    fresh = λ e h. ground (
      arith,
      has-filter (λ (f : Edge). not (f.from == r)) e s.edges,
      k.fresh e,
      has-append e.from s.order (r ∷ []),
      eq_iff e.from r,
      eq_iff r e.from,
    );
    settled = λ e h c. settle e c (k.settled e h c);
    optional = k.optional;
  }
    where
      settle :
          (e : Edge)
          → in_cycle ids e ≡ true
          → (has e s.edges ≡ true)
            ⊎ ((has e s.deferred ≡ true) ⊎ (is_before e.to e.from s.order ≡ true))
          → (has e (place r s).edges ≡ true)
            ⊎ ((has e s.deferred ≡ true) ⊎ (is_before e.to e.from (s.order ++ r ∷ []) ≡ true))
      settle e c (inr (inl d)) = inr (inl d)
      settle e c (inr (inr b)) = inr (inr (is_before-append e.to e.from s.order (r ∷ []) b))
      settle e c (inl here) = elim (Bool-cases (e.from == r)) [
        | inr other ↦
            inl (ground (arith, has-filter (λ (f : Edge). not (f.from == r)) e s.edges, other))
        | inl own ↦
            let gone : has e.to s.nodes ≡ false =
              ground
                (arith, not_any (λ (f : Edge). f.from == r && has f.to s.nodes) e s.edges free) in
            let there : has e.to s.order ≡ true = placed-known e.to (ground arith) gone in
            let away : has e.from s.order ≡ false = rw ((eq_iff e.from r).0 own) (not-placed r m) in
            inr
              (inr (rw (← (eq_iff e.from r).0 own) (is_before-last e.to e.from s.order there away)))
      ]

  defer-Kept :
      (f : Edge)
      → has f s.edges ≡ true
      → in_cycle s.nodes f ≡ true
      → f.required ≡ false
      → Kept ids edges (defer f s)
  unfolding has
  defer-Kept f m c o = record {
    once = k.once;
    known = λ e h. k.known e (erase-has f e s.edges h);
    fresh = λ e h. k.fresh e (erase-has f e s.edges h);
    settled = λ e h i. settle e (k.settled e h i);
    optional = λ e h. elim (Bool-cases (edge_eq.same f e)) [
      | inl hit ↦
          let e' : f ≡ e = (edge_eq.same_iff f e).0 hit in
          let c' : in_cycle ids f ≡ true = ground (arith, nodes-known f.from, nodes-known f.to) in
          rw (← e') (k.known f m, o, c')
      | inr miss ↦ k.optional e (ground (arith, has-append e s.deferred (f ∷ []), miss))
    ];
  }
    where
      settle :
          (e : Edge)
          → (has e s.edges ≡ true)
            ⊎ ((has e s.deferred ≡ true) ⊎ (is_before e.to e.from s.order ≡ true))
          → (has e (erase f s.edges) ≡ true)
            ⊎ ((has e (s.deferred ++ f ∷ []) ≡ true) ⊎ (is_before e.to e.from s.order ≡ true))
      settle e (inr (inl d)) = inr (inl (rw (has-append e s.deferred (f ∷ []), d) refl))
      settle e (inr (inr b)) = inr (inr b)
      settle e (inl here) = elim (has-erase f e s.edges here) [
        | inr left ↦ inl left
        | inl own ↦ inr (
            inl (rw (own) (ground (arith, has-append f s.deferred (f ∷ []), edge_eq.same_iff f f))))
      ]

start-Kept : (ids : List String) (edges : List Edge) → Kept ids edges (start ids edges)
unfolding has count
start-Kept ids edges = record {
  once = λ n. omega arith;
  known = λ e h. h;
  fresh = λ e h. refl;
  settled = λ e h c. inl h;
  optional = λ e h. absurd (ground arith);
}

Progress-Kept :
    (ids : List String) (edges : List Edge) (s s' : Remaining)
    → Kept ids edges s
    → Progress s s'
    → Kept ids edges s'
Progress-Kept ids edges s s' k (placed r m free e) = rw e (place-Kept ids edges s k r m free)
Progress-Kept ids edges s s' k (put_off f m c o e) = rw e (defer-Kept ids edges s k f m c o)

-- What the stops say of the kept states, they say of the result.
pub topo_sort_rule :
    (ids : List String) (edges : List Edge) (Q : TopoSortResult → Type 0)
    → ((s : Remaining) (r : TopoSortResult) → Kept ids edges s → Stop s r → Q r)
    → Q (topo_sort ids edges)
topo_sort_rule ids edges Q stop =
    run_rule (Kept ids edges) Q (Progress-Kept ids edges)
      (λ s r k e. stop s r k (round-finished s r s.nodes refl e)) _ (start ids edges) (omega arith)
      (start-Kept ids edges)

-- The sort never runs out of fuel: for any identifiers and edges, a round for each identifier and
-- each edge and one more are enough.
pub topo_sort_ends : (ids : List String) (edges : List Edge) → topo_sort ids edges ≢ out_of_fuel
topo_sort_ends ids edges = topo_sort_rule ids edges (λ r. r ≢ out_of_fuel) ended
  where
    ended : (s : Remaining) (r : TopoSortResult) → Kept ids edges s → Stop s r → r ≢ out_of_fuel
    ended s r k (done n e) h = ground arith
    ended s r k (stuck n m o f e) h = ground arith

-- Where the sort succeeds, its order has every identifier once, however often it was given, and
-- nothing else.
pub count-topo_sort :
    (ids : List String) (edges deferred : List Edge) (order : List String) (n : String)
    → topo_sort ids edges ≡ sorted order deferred
    → count n order ≡ (if has n ids then 1 else 0)
unfolding count
count-topo_sort ids edges deferred order n =
    topo_sort_rule ids edges
      (λ r. r ≡ sorted order deferred → count n order ≡ (if has n ids then 1 else 0)) counted
  where
    counted :
        (s : Remaining) (r : TopoSortResult)
        → Kept ids edges s
        → Stop s r
        → r ≡ sorted order deferred
        → count n order ≡ (if has n ids then 1 else 0)
    counted s r k (done e e') h = ground (arith, k.once n, count-distinct n ids)
    counted s r k (stuck m h' o f e) h = absurd (ground arith)

-- Where the sort succeeds, an edge between given identifiers either is optional and deferred, or has
-- its target before its source in the order.
pub topo_sort-is_before :
    (ids : List String) (edges deferred : List Edge) (order : List String) (e : Edge)
    → topo_sort ids edges ≡ sorted order deferred
    → has e edges ≡ true
    → in_cycle ids e ≡ true
    → ((e.required ≡ false) × (has e deferred ≡ true)) ⊎ (is_before e.to e.from order ≡ true)
unfolding has
topo_sort-is_before ids edges deferred order e h m c =
    topo_sort_rule ids edges
      (λ r.
        r ≡ sorted order deferred
        → ((e.required ≡ false) × (has e deferred ≡ true)) ⊎ (is_before e.to e.from order ≡ true))
      placed_or_deferred h
  where
    placed_or_deferred :
        (s : Remaining) (r : TopoSortResult)
        → Kept ids edges s
        → Stop s r
        → r ≡ sorted order deferred
        → ((e.required ≡ false) × (has e deferred ≡ true)) ⊎ (is_before e.to e.from order ≡ true)
    placed_or_deferred s r k (done e' d) h' =
        ground (arith, k.settled e m c, k.fresh e, k.optional e, placed-known ids edges s k e.from)
    placed_or_deferred s r k (stuck n m' o f e') h' = absurd (ground arith)
