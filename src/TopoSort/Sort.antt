-- ===== src/TopoSort/Sort.antt =====
-- packages/boject-cli/src/perf/topoSort.ts: the state of the loop, one round of it, and the loop on
-- fuel. The set of remaining nodes is the list of its members in the order of their insertion.
use boject_cms.Common.{
  ℕ, zero, suc, ◌+◌, ◌≡◌, ◌↔◌, String, ◌==◌, eq_iff, Bool, true, false, ◌&&◌, List, [], ◌∷◌, ◌++◌,
  Option, none, some, length, filter, find?, any, not, truthy, if◌then◌else◌, arith, Eq, string_eq,
  has, erase, distinct,
}

pub record Edge : Type 0 where
  pub from : String
  pub to : String
  pub field : String
  pub required : Bool

-- `order` and `deferredEdges` are the accumulators of the result.
pub record Remaining : Type 0 where
  pub nodes : List String
  pub edges : List Edge
  pub order : List String
  pub deferred : List Edge

pub data TopoSortResult : Type 0 where
  sorted : List String → List Edge → TopoSortResult
  cycle_requires_null : List String → List Edge → TopoSortResult
  out_of_fuel : TopoSortResult

pub data Round : Type 0 where
  going : Remaining → Round
  finished : TopoSortResult → Round

abbrev same_flag : Bool → Bool → Bool
same_flag true b = b
same_flag false b = not b

-- Edges are told apart by their fields: the one that is deferred is the first of its equals.
abbrev same_edge : Edge → Edge → Bool
same_edge e f =
    e.from == f.from && e.to == f.to && e.field == f.field && same_flag e.required f.required

same_flag_iff : (a b : Bool) → (same_flag a b ≡ true) ↔ (a ≡ b)
same_flag_iff true true = ground arith
same_flag_iff true false = ground arith
same_flag_iff false true = ground arith
same_flag_iff false false = ground arith

pub same_edge_iff : (e f : Edge) → (same_edge e f ≡ true) ↔ (e ≡ f)
same_edge_iff e f = ground (
  arith,
  eq_iff e.from f.from,
  eq_iff e.to f.to,
  eq_iff e.field f.field,
  same_flag_iff e.required f.required,
)

instance abbrev pub edge_eq : Eq Edge
edge_eq = record { same = same_edge; same_iff = same_edge_iff }

-- Whether a node has an edge to a node that is still to be placed.
abbrev pub is_blocked : List String → List Edge → String → Bool
is_blocked nodes edges n = any (λ e. e.from == n && has e.to nodes) edges

abbrev pub find_ready : List String → List Edge → Option String
find_ready nodes edges = find? (λ n. not (is_blocked nodes edges n)) nodes

abbrev pub in_cycle : List String → Edge → Bool
in_cycle nodes e = has e.from nodes && has e.to nodes

abbrev pub cycle_edges : List String → List Edge → List Edge
cycle_edges nodes edges = filter (in_cycle nodes) edges

-- The node leaves the remaining ones with its edges.
abbrev pub place : String → Remaining → Remaining
place ready s = record s {
  nodes = filter (λ n. not (n == ready)) s.nodes;
  edges = filter (λ e. not (e.from == ready)) s.edges;
  order = s.order ++ ready ∷ [];
}

abbrev pub defer : Edge → Remaining → Remaining
defer e s = record s { edges = erase e s.edges; deferred = s.deferred ++ e ∷ [] }

-- A round that has no node to place.
abbrev pub break_cycle : Remaining → Option Edge → Round
break_cycle s none =
    finished (cycle_requires_null s.nodes (filter (λ e. e.required) (cycle_edges s.nodes s.edges)))
break_cycle s (some optional) = going (defer optional s)

-- `if (ready)` also holds back a node whose identifier is empty.
abbrev pub advance : Remaining → Option String → Round
advance s none = break_cycle s (find? (λ e. not e.required) (cycle_edges s.nodes s.edges))
advance s (some ready) =
    if truthy (some ready)
    then going (place ready s)
    else break_cycle s (find? (λ e. not e.required) (cycle_edges s.nodes s.edges))

abbrev pub round : Remaining → List String → Round
round s [] = finished (sorted s.order s.deferred)
round s (_ ∷ _) = advance s (find_ready s.nodes s.edges)

unfoldable pub run : ℕ → Remaining → TopoSortResult
run zero s = out_of_fuel
run (suc fuel) s = elim (round s s.nodes) [ finished r ↦ r | going s' ↦ run fuel s' ]

abbrev pub start : List String → List Edge → Remaining
start identifiers edges = record {
  nodes = distinct identifiers;
  edges = edges;
  order = [];
  deferred = [];
}

-- Every round but the last places a node or defers an edge.
abbrev pub topo_sort : List String → List Edge → TopoSortResult
topo_sort identifiers edges =
    run (suc (length (distinct identifiers) + length edges)) (start identifiers edges)
