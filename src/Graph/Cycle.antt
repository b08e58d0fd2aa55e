-- ===== src/Graph/Cycle.antt =====
-- A search of Graph.antt that ends in GraphCycleError is on a walk that comes back to its start.
use mathlib.Core.Path.{subst}
use omniverse_v.Prelude.{
  ℕ, zero, suc, ◌≡◌, refl, sym, true, List, [], ◌∷◌, Bool-cases, inl, inr, has, has_split,
}
use omniverse_v.Graph.{Marks, cycle, enter, visit, Walk, one, more}
use omniverse_v.Graph.Marking.{>>=-stops, visit_restores, visit_all_stops}
use omniverse_v.Graph.Sound.{Links}

-- The nodes on the way to a node: each one has an edge to the next.
unfoldable pub Chain : (ℕ → List ℕ) → List ℕ → ℕ → Type 0
Chain next [] n = Unit
Chain next (v ∷ vs) n = Links next v n × Chain next vs v

extend : {R : ℕ → ℕ → Type 0} {i j k : ℕ} → Walk R i j → R j k → Walk R i k
extend (one r) s = more r (one s)
extend (more r w) s = more r (extend w s)

Chain-Walk :
    (next : ℕ → List ℕ) (vs : List ℕ) (i n : ℕ)
    → Chain next vs n
    → has i vs ≡ true
    → Walk (Links next) i n
unfolding Chain has
Chain-Walk next [] i n c h = cc
Chain-Walk next (v ∷ vs) i n (l, c) h = elim (has_split i v vs h) [
  | inl e ↦ one (subst (λ z. Links next z n) e l)
  | inr deeper ↦ extend (Chain-Walk next vs i v c deeper) l
]

-- A call that raises the error has met a cycle.
pub visit_cycle :
    (next : ℕ → List ℕ) (depth node : ℕ) (m : Marks)
    → Chain next m.visiting node
    → visit next depth node m ≡ cycle
    → (i : ℕ) × Walk (Links next) i i
unfolding visit Chain
visit_cycle next zero node m c e = cc
visit_cycle next (suc depth) node m c e = elim (Bool-cases (has node m.visiting)) [
  | inl loop ↦ (node, Chain-Walk next m.visiting node node c loop)
  | inr clear ↦ elim (Bool-cases (has node m.visited)) [
    | inl old ↦ cc (rw (clear, old) at e)
    | inr new ↦ elim (>>=-stops _ _ _ (rw (clear, new) at e)) [
      | inl inner ↦
          visit_all_stops (visit next depth) (next node) (enter node m) cycle (node ∷ m.visiting)
            (visit_restores next depth)
            (λ j t v hj s.
              visit_cycle next depth j t (subst (λ z. Chain next z j) (sym v) (hj, c)) s)
            (λ t x. cc) refl inner
      | inr (u, p, q) ↦ cc
    ]
  ]
]
