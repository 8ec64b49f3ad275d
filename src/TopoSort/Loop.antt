-- ===== src/TopoSort/Loop.antt =====
-- The rounds of the sort as a step relation, and the rule that carries an invariant through the loop.
use boject_cms.Common.{
  ℕ, zero, suc, ◌+◌, ◌<◌, ◌≡◌, refl, String, ◌==◌, true, false, List, [], ◌∷◌, Option, none, some,
  length, filter, find?, not, arith, string_eq, has, has-find, has-filter, not-find, length-filter,
  length-filter_lt, length-erase, same_refl,
}
use boject_cms.TopoSort.Sort.{
  Edge, edge_eq, Remaining, TopoSortResult, sorted, cycle_requires_null, Round, going, finished,
  is_blocked, find_ready, in_cycle, cycle_edges, place, defer, break_cycle, advance, round, run,
}

-- What one round does.
pub data Progress (s : Remaining) (s' : Remaining) : Type 0 where
  placed :
      (r : String)
      → has r s.nodes ≡ true
      → is_blocked s.nodes s.edges r ≡ false
      → s' ≡ place r s
      → Progress s s'
  put_off :
      (e : Edge)
      → has e s.edges ≡ true
      → in_cycle s.nodes e ≡ true
      → e.required ≡ false
      → s' ≡ defer e s
      → Progress s s'

find_ready-some :
    (s : Remaining) (r : String)
    → find_ready s.nodes s.edges ≡ some r
    → (is_blocked s.nodes s.edges r ≡ false) × (has r s.nodes ≡ true)
find_ready-some s r h =
    ground (arith, has-find (λ n. not (is_blocked s.nodes s.edges n)) r s.nodes h)

optional-some :
    (s : Remaining) (e : Edge)
    → find? (λ f. not f.required) (cycle_edges s.nodes s.edges) ≡ some e
    → (e.required ≡ false) × (in_cycle s.nodes e ≡ true) × (has e s.edges ≡ true)
optional-some s e h = ground (
  arith,
  has-find (λ f. not f.required) e (cycle_edges s.nodes s.edges) h,
  has-filter (in_cycle s.nodes) e s.edges,
)

break_cycle-going :
    (s s' : Remaining) (o : Option Edge)
    → find? (λ f. not f.required) (cycle_edges s.nodes s.edges) ≡ o
    → break_cycle s o ≡ going s'
    → Progress s s'
break_cycle-going s s' none f h = absurd (ground arith)
break_cycle-going s s' (some e) f h =
    let found = optional-some s e f in put_off e found.2 found.1 found.0 (ground arith)

advance-going :
    (s s' : Remaining) (o : Option String)
    → find_ready s.nodes s.edges ≡ o
    → advance s o ≡ going s'
    → Progress s s'
advance-going s s' none f h = break_cycle-going s s' _ refl h
advance-going s s' (some String.[]) f h = break_cycle-going s s' _ refl h
advance-going s s' (some (String.◌∷◌ c cs)) f h =
    let found = find_ready-some s (String.◌∷◌ c cs) f in
    placed (String.◌∷◌ c cs) found.1 found.0 (ground arith)

pub round-going : (s s' : Remaining) (ns : List String) → round s ns ≡ going s' → Progress s s'
round-going s s' [] h = absurd (ground arith)
round-going s s' (_ ∷ _) h = advance-going s s' _ refl h

abbrev pub measure : Remaining → ℕ
measure s = length s.nodes + length s.edges

Progress-measure : (s s' : Remaining) → Progress s s' → measure s' < measure s
Progress-measure s s' (placed r h b e) = ground (
  arith,
  e,
  length-filter_lt (λ n. not (n == r)) r s.nodes h,
  same_refl r,
  length-filter (λ f. not (f.from == r)) s.edges,
)
Progress-measure s s' (put_off f h c o e) = ground (arith, e, length-erase f s.edges h)

-- With a measure below the fuel the loop ends by its test, and an invariant that every round keeps
-- holds there.
pub run_rule :
    (P : Remaining → Type 0) (Q : TopoSortResult → Type 0)
    → ((s s' : Remaining) → P s → Progress s s' → P s')
    → ((s : Remaining) (r : TopoSortResult) → P s → round s s.nodes ≡ finished r → Q r)
    → (fuel : ℕ) (s : Remaining) → measure s < fuel
    → P s
    → Q (run fuel s)
unfolding run
run_rule P Q keep stop zero s m h = absurd (omega arith)
run_rule P Q keep stop (suc fuel) s m h = at (round s s.nodes) refl λ s' step.
    let less = Progress-measure s s' step in
    run_rule P Q keep stop fuel s' (omega arith) (keep s s' h step)
  where
    at :
        (o : Round)
        → round s s.nodes ≡ o
        → ((s' : Remaining) → Progress s s' → Q (run fuel s'))
        → Q (elim o [ finished r ↦ r | going s' ↦ run fuel s' ])
    at (finished r) e later = stop s r h e
    at (going s') e later = later s' (round-going s s' s.nodes e)

-- No node is ready. A ready node whose identifier is empty hides the others.
abbrev pub IsHeld : Remaining → Type 0
IsHeld s =
    has "" s.nodes ≡ false
    → (n : String) → has n s.nodes ≡ true
    → is_blocked s.nodes s.edges n ≡ true

-- Where the loop ends: with nothing left, or with every remaining node blocked and no edge between
-- remaining nodes optional.
pub data Stop (s : Remaining) (r : TopoSortResult) : Type 0 where
  done : s.nodes ≡ [] → r ≡ sorted s.order s.deferred → Stop s r
  stuck :
      (n : String)
      → has n s.nodes ≡ true
      → ((e : Edge) → has e s.edges ≡ true → in_cycle s.nodes e ≡ true → e.required ≡ true)
      → IsHeld s
      → r ≡ cycle_requires_null s.nodes (filter (λ e. e.required) (cycle_edges s.nodes s.edges))
      → Stop s r

break_cycle-finished :
    (s : Remaining) (r : TopoSortResult) (n : String)
    → has n s.nodes ≡ true
    → (o : Option Edge) → find? (λ f. not f.required) (cycle_edges s.nodes s.edges) ≡ o
    → IsHeld s
    → break_cycle s o ≡ finished r
    → Stop s r
break_cycle-finished s r n m (some e) f held h = absurd (ground arith)
break_cycle-finished s r n m none f held h =
    stuck n m
      (λ e m' c. ground (
        arith,
        not-find (λ g. not g.required) e (cycle_edges s.nodes s.edges) f,
        has-filter (in_cycle s.nodes) e s.edges,
      ))
      held (ground arith)

advance-finished :
    (s : Remaining) (r : TopoSortResult) (n : String)
    → has n s.nodes ≡ true
    → (o : Option String) → find_ready s.nodes s.edges ≡ o
    → advance s o ≡ finished r
    → Stop s r
advance-finished s r n m none f h =
    break_cycle-finished s r n m _ refl
      (λ _ k m'. ground (arith, not-find (λ x. not (is_blocked s.nodes s.edges x)) k s.nodes f)) h
advance-finished s r n m (some String.[]) f h =
    break_cycle-finished s r n m _ refl (λ e k m'. absurd (ground (arith, find_ready-some s "" f)))
      h
advance-finished s r n m (some (String.◌∷◌ c cs)) f h = absurd (ground arith)

pub round-finished :
    (s : Remaining) (r : TopoSortResult) (ns : List String)
    → s.nodes ≡ ns
    → round s ns ≡ finished r
    → Stop s r
unfolding has
round-finished s r [] e h = done e (ground arith)
round-finished s r (n ∷ ns) e h =
    let m : has n s.nodes ≡ true = rw e (ground (arith, same_refl n)) in
    advance-finished s r n m _ refl h
