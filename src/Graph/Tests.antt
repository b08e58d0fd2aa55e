-- ===== src/Graph/Tests.antt =====
-- `ensure_valid_graph` on small graphs.
use omniverse_v.Prelude.{ℕ, ◌≡◌, ◌↔◌, refl, List, [], ◌∷◌, filter, has}
use omniverse_v.Graph.{
  GraphEdge, is_a, instance_of, other_relation, Marks, done, cycle, out_of_fuel, visit_all, visit,
  build, add_target, targets, search_graph, ensure_valid_graph, IsEdge, Walk,
}
use omniverse_v.Graph.Validity.{ensure_valid_graph_ends, ensure_valid_graph_cycle}

-- 1 is_a 2, 2 instance_of 3, and 3 back to 1 by a relation that may have cycles.
abbrev tree : List GraphEdge
tree =
    record { source_id = 1; target_id = 2; relation_type = is_a }
    ∷ record { source_id = 2; target_id = 3; relation_type = instance_of }
    ∷ record { source_id = 3; target_id = 1; relation_type = other_relation }
    ∷ []

abbrev looped : List GraphEdge
looped = record { source_id = 3; target_id = 1; relation_type = is_a } ∷ tree

tree_valid : ensure_valid_graph tree ≡ done (record { visiting = []; visited = 1 ∷ 2 ∷ 3 ∷ [] })
unfolding ensure_valid_graph search_graph visit visit_all build add_target targets has filter
tree_valid = refl

looped_refused : ensure_valid_graph looped ≡ cycle
unfolding ensure_valid_graph search_graph visit visit_all build add_target targets has filter
looped_refused = refl

ensure_valid_graph_ends_example : ¬ (ensure_valid_graph looped ≡ out_of_fuel)
ensure_valid_graph_ends_example = ensure_valid_graph_ends looped

ensure_valid_graph_cycle_example :
    ((ensure_valid_graph looped ≡ cycle) ↔ ((i : ℕ) × Walk (IsEdge looped) i i))
    × ((¬ ((i : ℕ) × Walk (IsEdge looped) i i))
        → (t : Marks) × (ensure_valid_graph looped ≡ done t))
ensure_valid_graph_cycle_example = ensure_valid_graph_cycle looped
