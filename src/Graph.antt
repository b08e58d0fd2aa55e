-- ===== src/Graph.antt =====
-- `ensure_valid_graph` of backend/app/v2/domain.py: a depth-first search that raises GraphCycleError
-- if the taxonomy has a cycle. The search has the depth that it may reach as its fuel. The order in
-- which a set of strings is read is the order of insertion here.
pub mod Lookup
pub mod Marking
pub mod Sound
pub mod Cycle
pub mod Depth
pub mod Validity
mod Tests
use omniverse_v.Prelude.{
  ℕ, zero, suc, ◌+◌, ◌==◌, ◌≡◌, Bool, true, false, not, Option, none, some, List, [], ◌∷◌, ◌++◌,
  any, filter, map, length, if◌then◌else◌, has,
}
use mathlib.Core.List.{Memᴰ}

pub data RelationType : Type 0 where
  is_a instance_of other_relation : RelationType

-- `relation_type in ACYCLIC_RELATION_TYPES`.
abbrev pub is_acyclic : RelationType → Bool
is_acyclic is_a = true
is_acyclic instance_of = true
is_acyclic other_relation = false

pub record GraphEdge : Type 0 where
  pub source_id : ℕ
  pub target_id : ℕ
  pub relation_type : RelationType

abbrev pub Adjacency : Type 0
Adjacency = List (ℕ × List ℕ)

-- `set.add`.
abbrev pub add_id : ℕ → List ℕ → List ℕ
add_id i ids = if has i ids then ids else ids ++ i ∷ []

-- `adjacency.setdefault(source, set()).add(target)`.
unfoldable pub add_target : ℕ → ℕ → Adjacency → Adjacency
add_target source target [] = (source, target ∷ []) ∷ []
add_target source target ((i, ids) ∷ rest) =
    if i == source then (i, add_id target ids) ∷ rest else (i, ids) ∷ add_target source target rest

abbrev pub add_edge : GraphEdge → Adjacency → Adjacency
add_edge e a = if is_acyclic e.relation_type then add_target e.source_id e.target_id a else a

-- The loop over the edges.
unfoldable pub build : List GraphEdge → Adjacency → Adjacency
build [] a = a
build (e ∷ es) a = build es (add_edge e a)

-- `adjacency.get(node_id, ())`.
unfoldable pub targets : Adjacency → ℕ → List ℕ
targets [] node = []
targets ((i, ids) ∷ rest) node = if i == node then ids else targets rest node

pub record Marks : Type 0 where
  pub visiting : List ℕ
  pub visited : List ℕ

pub data Search : Type 0 where
  done : Marks → Search
  cycle out_of_fuel : Search

infixl 5 ◌>>=◌
abbrev pub ◌>>=◌ : Search → (Marks → Search) → Search
done m >>= f = f m
cycle >>= f = cycle
out_of_fuel >>= f = out_of_fuel

abbrev pub enter : ℕ → Marks → Marks
enter node m = record m { visiting = node ∷ m.visiting }

-- `visiting.remove(node_id)` and `visited.add(node_id)`.
abbrev pub leave : ℕ → Marks → Marks
leave node m = record {
  visiting = filter (λ i. not (i == node)) m.visiting;
  visited = node ∷ m.visited;
}

-- The calls of `visit` for some nodes, one after another.
unfoldable pub visit_all : (ℕ → Marks → Search) → List ℕ → Marks → Search
visit_all visit [] m = done m
visit_all visit (i ∷ ids) m = visit i m >>= visit_all visit ids

unfoldable pub visit : (ℕ → List ℕ) → ℕ → ℕ → Marks → Search
unfolding visit_all
visit next zero node m = out_of_fuel
visit next (suc depth) node m =
    let inner = visit_all (visit next depth) (next node) (enter node m) in
    if has node m.visiting
    then cycle
    else if has node m.visited
    then done m
    else inner >>= λ t. done (leave node t)

abbrev pub nothing_marked : Marks
nothing_marked = record { visiting = []; visited = [] }

abbrev pub keys : Adjacency → List ℕ
keys a = map (λ (entry : ℕ × List ℕ). entry.0) a

unfoldable pub search_graph : ℕ → Adjacency → Search
unfolding visit
search_graph depth a = visit_all (visit (targets a) depth) (keys a) nothing_marked

-- `ensure_valid_graph`. A node with targets is a key, and the search holds it once.
unfoldable pub ensure_valid_graph : List GraphEdge → Search
unfolding search_graph
ensure_valid_graph edges = let a = build edges [] in search_graph (suc (length a)) a

-- The specification: an edge of a relation that must not have cycles, and the walks of such edges.
abbrev pub IsEdge : List GraphEdge → ℕ → ℕ → Type 0
IsEdge edges i j =
    (e : GraphEdge) × Memᴰ e edges
    × (is_acyclic e.relation_type ≡ true)
    × (e.source_id ≡ i)
    × (e.target_id ≡ j)

pub data Walk (R : ℕ → ℕ → Type 0) : ℕ → ℕ → Type 0 where
  one : {i j : ℕ} → R i j → Walk R i j
  more : {i j k : ℕ} → R i j → Walk R j k → Walk R i k
