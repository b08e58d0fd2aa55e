-- ===== src/Graph/Validity.antt =====
-- `ensure_valid_graph` of backend/app/v2/domain.py decides whether the graph has a cycle.
use mathlib.Core.Path.{subst}
use omniverse_v.Prelude.{ℕ, suc, ◌≡◌, refl, sym, List, [], arith, length, ◌↔◌}
use omniverse_v.Graph.{
  GraphEdge, Adjacency, Marks, Search, done, cycle, out_of_fuel, build, targets, keys,
  nothing_marked, visit, search_graph, ensure_valid_graph, IsEdge, Walk, one, more,
}
use omniverse_v.Graph.Marking.{visit_restores, visit_all_stops}
use omniverse_v.Graph.Sound.{Ordered, Links, Ordered-acyclic, visit_settles, visit_all_settles}
use omniverse_v.Graph.Cycle.{Chain, visit_cycle}
use omniverse_v.Graph.Depth.{free-length, visit_enough}
use omniverse_v.Graph.Lookup.{Links-iff, targets_key, length-keys}

Walk-map :
    {R S : ℕ → ℕ → Type 0} → ((i j : ℕ) → R i j → S i j) → {i j : ℕ} → Walk R i j → Walk S i j
Walk-map f (one r) = one (f _ _ r)
Walk-map f (more r w) = more (f _ _ r) (Walk-map f w)

starts : {R : ℕ → ℕ → Type 0} {i j : ℕ} → Walk R i j → (k : ℕ) × R i k
starts (one r) = (_, r)
starts (more r w) = (_, r)

search_done :
    (depth : ℕ) (a : Adjacency) (t : Marks) (i : ℕ)
    → search_graph depth a ≡ done t
    → ¬ Walk (Links (targets a)) i i
unfolding search_graph Ordered
search_done depth a t i e w =
    let (o, all, kept) =
      visit_all_settles (targets a) (visit (targets a) depth) (keys a) nothing_marked t
        (visit_settles (targets a) depth) tt e in
    let (j, l) = starts w in
    Ordered-acyclic (targets a) t.visited i o (all i (targets_key a i j l)) w

search_cycle :
    (depth : ℕ) (a : Adjacency)
    → search_graph depth a ≡ cycle
    → (i : ℕ) × Walk (Links (targets a)) i i
unfolding search_graph Chain
search_cycle depth a e =
    visit_all_stops (visit (targets a) depth) (keys a) nothing_marked cycle []
      (visit_restores (targets a) depth)
      (λ j t v h s.
        visit_cycle (targets a) depth j t (subst (λ z. Chain (targets a) z j) (sym v) tt) s)
      (λ t x. cc) refl e

search_enough : (a : Adjacency) → ¬ (search_graph (suc (length a)) a ≡ out_of_fuel)
unfolding search_graph
search_enough a e =
    visit_all_stops (visit (targets a) (suc (length a))) (keys a) nothing_marked out_of_fuel []
      (visit_restores (targets a) (suc (length a)))
      (λ j t v h s.
        let some_left = free-length t.visiting (keys a) in
        let count = length-keys a in
        visit_enough (targets a) (keys a) (targets_key a) (suc (length a)) j t (omega arith) s)
      (λ t x. cc) refl e

-- A search that ends tells which of two cases holds.
decided :
    {G : Type 0} (r : Search)
    → ¬ (r ≡ out_of_fuel)
    → ((t : Marks) → r ≡ done t → ¬ G)
    → (r ≡ cycle → G)
    → ((r ≡ cycle) ↔ G) × ((¬ G) → (t : Marks) × (r ≡ done t))
decided (done t) ends clear found = ((λ e. cc, λ g. absurd (clear t refl g)), λ n. (t, refl))
decided cycle ends clear found = ((found, λ g. refl), λ n. absurd (n (found refl)))
decided out_of_fuel ends clear found = absurd (ends refl)

-- `ensure_valid_graph` always ends, in a return or in GraphCycleError: a depth of one more than the
-- number of nodes with targets is never used up.
pub ensure_valid_graph_ends : (edges : List GraphEdge) → ¬ (ensure_valid_graph edges ≡ out_of_fuel)
unfolding ensure_valid_graph
ensure_valid_graph_ends edges = search_enough (build edges [])

-- `ensure_valid_graph` raises GraphCycleError exactly when some walk over edges of the acyclic
-- relation types comes back to its start, and returns when there is none.
pub ensure_valid_graph_cycle :
    (edges : List GraphEdge)
    → ((ensure_valid_graph edges ≡ cycle) ↔ ((i : ℕ) × Walk (IsEdge edges) i i))
      × ((¬ ((i : ℕ) × Walk (IsEdge edges) i i))
          → (t : Marks) × (ensure_valid_graph edges ≡ done t))
unfolding ensure_valid_graph
ensure_valid_graph_cycle edges =
    let a = build edges [] in
    let depth = suc (length a) in
    decided (search_graph depth a) (search_enough a)
      (λ t e loop.
        search_done depth a t loop.0 e (Walk-map (λ i j. (Links-iff edges i j).1) loop.1))
      (λ e. let (i, w) = search_cycle depth a e in (i, Walk-map (λ j k. (Links-iff edges j k).0) w))
