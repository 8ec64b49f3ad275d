-- ===== src/TopoSort/Refusal.antt =====
-- When the sort gives up, and why no other order would do.
use boject_cms.Common.{
  ◌≡◌, refl, ap, inl, inr, String, ◌==◌, eq_iff, Bool, true, false, ◌&&◌, List, [], ◌∷◌, any, all,
  arith, Bool-cases, string_eq, has, has-filter, has-any, same_refl,
}
use boject_cms.TopoSort.Sort.{
  Edge, edge_eq, Remaining, TopoSortResult, cycle_requires_null, in_cycle, cycle_edges, topo_sort,
}
use boject_cms.TopoSort.Loop.{Stop, done, stuck}
use boject_cms.TopoSort.Safety.{Kept, is_before, nodes-known, topo_sort_rule}

-- The first text of a list that passes a test: none that passes stands before it.
first_in :
    (p : String → Bool) (xs : List String)
    → any p xs ≡ true
    → (n : String) × (p n ≡ true) × ((a : String) → p a ≡ true → is_before a n xs ≡ false)
unfolding is_before
first_in p [] h = absurd (ground arith)
first_in p (x ∷ xs) h = elim (Bool-cases (p x)) [
  | inl t ↦ (x, t, λ a t'. ground (arith, same_refl x))
  | inr f ↦
      let later = first_in p xs (ground arith) in
      (
        later.0,
        later.1,
        λ a t. ground (arith, later.2 a t, t, f, eq_iff x a, λ (q : x ≡ a). ap p q),
      )
]

-- An element that a test found.
found_by :
    (p : Edge → Bool) (es : List Edge)
    → any p es ≡ true
    → (e : Edge) × (p e ≡ true) × (has e es ≡ true)
unfolding has
found_by p [] h = absurd (ground arith)
found_by p (x ∷ es) h = elim (Bool-cases (p x)) [
  | inl t ↦ (x, t, ground (arith, same_refl x))
  | inr f ↦ let later = found_by p es (ground arith) in (later.0, later.1, ground (arith, later.2))
]

all-has :
    (p : String → Bool) (n : String) (xs : List String)
    → all p xs ≡ true
    → has n xs ≡ true
    → p n ≡ true
unfolding has
all-has p n [] h m = absurd (ground arith)
all-has p n (x ∷ xs) h m = elim (Bool-cases (x == n)) [
  | inl hit ↦ let t : p x ≡ true = ground arith in rw (← (eq_iff x n).0 hit) t
  | inr miss ↦ ground (arith, miss, all-has p n xs)
]

-- Where the sort gives up on identifiers that are not empty, then for every order in which all of
-- them stand, one of the edges that the error lists is a required edge between the identifiers whose
-- target does not stand before its source.
pub topo_sort_refused :
    (ids : List String) (edges required : List Edge) (residual order : List String)
    → topo_sort ids edges ≡ cycle_requires_null residual required
    → has "" ids ≡ false
    → all (λ n. has n order) ids ≡ true
    → (e : Edge) × (has e required ≡ true)
      × (e.required ≡ true)
      × (has e edges ≡ true)
      × (in_cycle ids e ≡ true)
      × (is_before e.to e.from order ≡ false)
topo_sort_refused ids edges required residual order h filled there =
    topo_sort_rule ids edges
      (λ r.
        r ≡ cycle_requires_null residual required
        → (e : Edge) × (has e required ≡ true)
          × (e.required ≡ true)
          × (has e edges ≡ true)
          × (in_cycle ids e ≡ true)
          × (is_before e.to e.from order ≡ false))
      violated h
  where
    violated :
        (s : Remaining) (r : TopoSortResult)
        → Kept ids edges s
        → Stop s r
        → r ≡ cycle_requires_null residual required
        → (e : Edge) × (has e required ≡ true)
          × (e.required ≡ true)
          × (has e edges ≡ true)
          × (in_cycle ids e ≡ true)
          × (is_before e.to e.from order ≡ false)
    violated s r k (done e d) h' = absurd (ground arith)
    violated s r k (stuck n m o held e) h' =
        let known = nodes-known ids edges s k in
        let in_order = all-has (λ x. has x order) n ids there (known n m) in
        let first =
          first_in (λ x. has x s.nodes) order (has-any (λ x. has x s.nodes) n order in_order m) in
        let clear : has "" s.nodes ≡ false = ground (arith, known "") in
        let edge =
          found_by (λ f. f.from == first.0 && has f.to s.nodes) s.edges
            (held clear first.0 first.1) in
        let f = edge.0 in
        let from : f.from ≡ first.0 = ground (arith, edge.1, eq_iff f.from first.0) in
        let to : has f.to s.nodes ≡ true = ground (arith, edge.1) in
        let cycle : in_cycle s.nodes f ≡ true = rw (from, first.1, to) refl in
        let required_edge = o f edge.2 cycle in
        (
          f,
          ground (
            arith,
            has-filter (λ (g : Edge). g.required) f (cycle_edges s.nodes s.edges),
            has-filter (in_cycle s.nodes) f s.edges,
            edge.2,
          ),
          required_edge,
          k.known f edge.2,
          ground (arith, known f.from, known f.to),
          rw from (first.2 f.to to),
        )
