-- ===== src/Graph/Sound.antt =====
-- The nodes that the search of Graph.antt has visited: each one after all its targets, so no walk
-- comes back to its start.
use mathlib.Core.Path.{subst}
use omniverse_v.Prelude.{
  ℕ, zero, suc, ◌≡◌, sym, true, List, [], ◌∷◌, Bool-cases, inl, inr, has, has-head, has-tail,
  has_split,
}
use omniverse_v.Graph.{Marks, Search, done, enter, visit_all, visit, Walk, one, more}
use omniverse_v.Graph.Marking.{>>=-done, visit_cases}

-- The edge of the search from one node to another.
abbrev pub Links : (ℕ → List ℕ) → ℕ → ℕ → Type 0
Links next i j = has j (next i) ≡ true

-- Every node stands before its targets.
unfoldable pub Ordered : (ℕ → List ℕ) → List ℕ → Type 0
Ordered next [] = Unit
Ordered next (n ∷ ns) = ((j : ℕ) → Links next n j → has j ns ≡ true) × Ordered next ns

-- A target of an ordered node is in the list.
closed :
    (next : ℕ → List ℕ) (ns : List ℕ) (i j : ℕ)
    → Ordered next ns
    → has i ns ≡ true
    → Links next i j
    → has j ns ≡ true
unfolding Ordered has
closed next [] i j o h l = cc
closed next (n ∷ ns) i j (first, rest) h l = elim (has_split i n ns h) [
  | inl e ↦ has-tail j n ns (first j (subst (λ z. Links next z j) (sym e) l))
  | inr old ↦ has-tail j n ns (closed next ns i j rest old l)
]

-- And so is where a walk ends.
stays :
    (next : ℕ → List ℕ) (ns : List ℕ) (i j : ℕ)
    → Ordered next ns
    → has i ns ≡ true
    → Walk (Links next) i j
    → has j ns ≡ true
stays next ns i j o h (one l) = closed next ns i j o h l
stays next ns i j o h (more l w) = stays next ns _ j o (closed next ns i _ o h l) w

-- A walk from the first node goes on among the others.
moves_on :
    (next : ℕ → List ℕ) (n : ℕ) (ns : List ℕ) (j : ℕ)
    → Ordered next (n ∷ ns)
    → Walk (Links next) n j
    → has j ns ≡ true
unfolding Ordered
moves_on next n ns j (first, rest) (one l) = first j l
moves_on next n ns j (first, rest) (more l w) = stays next ns _ j rest (first _ l) w

pub Ordered-acyclic :
    (next : ℕ → List ℕ) (ns : List ℕ) (i : ℕ)
    → Ordered next ns
    → has i ns ≡ true
    → ¬ Walk (Links next) i i
unfolding Ordered has
Ordered-acyclic next [] i o h w = cc
Ordered-acyclic next (n ∷ ns) i o h w = elim (Bool-cases (has i ns)) [
  | inl old ↦ Ordered-acyclic next ns i o.1 old w
  | inr fresh ↦ elim (has_split i n ns h) [
    | inl e ↦ let back = moves_on next n ns i o (subst (λ z. Walk (Links next) z i) (sym e) w) in cc
    | inr old ↦ cc
  ]
]

only : (j i : ℕ) (ns : List ℕ) → has j (i ∷ []) ≡ true → has i ns ≡ true → has j ns ≡ true
unfolding has
only j i ns hj hi = elim (has_split j i [] hj) [
  | inl e ↦ subst (λ z. has z ns ≡ true) e hi
  | inr none ↦ cc
]

-- What a call that returns does for the visited nodes.
abbrev pub Settles : (ℕ → List ℕ) → (Marks → Marks → List ℕ → Type 0)
Settles next m t ids =
    Ordered next t.visited
    × ((i : ℕ) → has i ids ≡ true → has i t.visited ≡ true)
    × ((i : ℕ) → has i m.visited ≡ true → has i t.visited ≡ true)

pub visit_all_settles :
    (next : ℕ → List ℕ) (f : ℕ → Marks → Search) (ids : List ℕ) (m t : Marks)
    → ((i : ℕ) (m t : Marks) → Ordered next m.visited → f i m ≡ done t → Settles next m t (i ∷ []))
    → Ordered next m.visited
    → visit_all f ids m ≡ done t
    → Settles next m t ids
unfolding visit_all has
visit_all_settles next f [] m t h o e =
    let same : m ≡ t = cc in subst (λ z. Settles next m z []) same (o, λ i p. cc, λ i p. p)
visit_all_settles next f (i ∷ ids) m t h o e =
    let (u, p, q) = >>=-done (f i m) (visit_all f ids) t e in
    let (ou, here, old) = h i m u o p in
    let (ot, all, kept) = visit_all_settles next f ids u t h ou q in
    (
      ot,
      λ j hj. elim (has_split j i ids hj) [
        | inl e ↦ kept j (here j (subst (λ z. has j (z ∷ []) ≡ true) (sym e) (has-head j [])))
        | inr later ↦ all j later
      ],
      λ j hj. kept j (old j hj),
    )

pub visit_settles :
    (next : ℕ → List ℕ) (depth i : ℕ) (m t : Marks)
    → Ordered next m.visited
    → visit next depth i m ≡ done t
    → Settles next m t (i ∷ [])
unfolding visit Ordered has
visit_settles next zero i m t o e = cc
visit_settles next (suc depth) i m t o e =
    let (clear, way) = visit_cases next depth i m t e in
    elim way [
      | inl (old, same) ↦
          subst (λ z. Settles next m z (i ∷ [])) same
            (o, λ j hj. only j i m.visited hj old, λ j hj. hj)
      | inr (u, p, q) ↦
          let (ou, all, kept) =
            visit_all_settles next (visit next depth) (next i) (enter i m) u
              (visit_settles next depth) o p in
          subst (λ z. Settles next m z (i ∷ [])) q
            (
              (all, ou),
              λ j hj. only j i (i ∷ u.visited) hj (has-head i u.visited),
              λ j hj. has-tail j i u.visited (kept j hj),
            )
    ]
