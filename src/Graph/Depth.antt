-- ===== src/Graph/Depth.antt =====
-- The depth that the search of Graph.antt reaches: a node on the way to the next one is a key, and no
-- node is there twice.
use omniverse_v.Prelude.{
  ℕ, zero, suc, ◌<◌, ◌≤◌, ◌≡◌, refl, true, false, if◌then◌else◌, List, [], ◌∷◌, Bool-cases, inl,
  inr, arith, length, has,
}
use omniverse_v.Graph.{Marks, out_of_fuel, enter, visit}
use omniverse_v.Graph.Marking.{>>=-stops, visit_restores, visit_all_stops}
use omniverse_v.Graph.Sound.{Links}

-- How many of the keys are not on the way.
unfoldable pub free : List ℕ → List ℕ → ℕ
free vs [] = zero
free vs (k ∷ ks) = if has k vs then free vs ks else suc (free vs ks)

pub free-length : (vs ks : List ℕ) → free vs ks ≤ length ks
unfolding free
free-length vs [] = omega arith
free-length vs (k ∷ ks) = ground (arith, free-length vs ks)

free_grow : (n : ℕ) (vs ks : List ℕ) → free (n ∷ vs) ks ≤ free vs ks
unfolding free has
free_grow n vs [] = omega arith
free_grow n vs (k ∷ ks) = ground (arith, free_grow n vs ks)

-- To enter a key takes one of them.
free_enter :
    (n : ℕ) (vs ks : List ℕ) → has n ks ≡ true → has n vs ≡ false → free (n ∷ vs) ks < free vs ks
unfolding free has
free_enter n vs [] h f = cc
free_enter n vs (k ∷ ks) h f = ground (arith, free_enter n vs ks, free_grow n vs ks)

below : {a b d : ℕ} → a < b → b < suc d → a < d
below p q = omega arith

pub visit_enough :
    (next : ℕ → List ℕ) (ks : List ℕ)
    → ((i j : ℕ) → Links next i j → has i ks ≡ true)
    → (depth node : ℕ) (m : Marks) → free m.visiting ks < depth
    → ¬ (visit next depth node m ≡ out_of_fuel)
unfolding visit
visit_enough next ks key zero node m l e = absurd (omega arith)
visit_enough next ks key (suc depth) node m l e = elim (Bool-cases (has node m.visiting)) [
  | inl loop ↦ cc (rw loop at e)
  | inr clear ↦ elim (Bool-cases (has node m.visited)) [
    | inl old ↦ cc (rw (clear, old) at e)
    | inr new ↦ elim (>>=-stops _ _ _ (rw (clear, new) at e)) [
      | inl inner ↦
          visit_all_stops (visit next depth) (next node) (enter node m) out_of_fuel
            (node ∷ m.visiting) (visit_restores next depth)
            (λ j t v hj s.
              let at_most : free (node ∷ m.visiting) ks < depth =
                below (free_enter node m.visiting ks (key node j hj) clear) l in
              let room : free t.visiting ks < depth = rw v at_most in
              visit_enough next ks key depth j t room s)
            (λ t x. cc) refl inner
      | inr (u, p, q) ↦ cc
    ]
  ]
]
