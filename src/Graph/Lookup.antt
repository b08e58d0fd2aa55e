-- ===== src/Graph/Lookup.antt =====
-- The adjacency that `ensure_valid_graph` builds holds the edges that must not have cycles.
use mathlib.Core.List.{Memᴰ}
use mathlib.Core.Path.{subst}
use omniverse_v.Prelude.{
  ℕ, suc, ◌⊎◌, ◌==◌, ◌≡◌, refl, sym, ◌∙◌, ap, Bool, true, false, List, [], ◌∷◌, ◌++◌, ◌&&◌, ◌||◌,
  Bool-cases, inl, inr, arith, length, ==_iff, has,
}
use omniverse_v.Graph.{
  Adjacency, add_id, add_target, add_edge, build, targets, keys, GraphEdge, is_acyclic, IsEdge,
}
use omniverse_v.Graph.Sound.{Links}

has-append : (i j : ℕ) (ids : List ℕ) → has i (ids ++ j ∷ []) ≡ (j == i) || has i ids
unfolding has
has-append i j [] = ground arith
has-append i j (k ∷ ids) = ground (arith, has-append i j ids)

has-add : (i j : ℕ) (ids : List ℕ) → has i (add_id j ids) ≡ (j == i) || has i ids
unfolding has
has-add i j ids = elim (Bool-cases (has j ids)) [
  | inl old ↦ elim (Bool-cases (j == i)) [
    | inl e ↦
        let here : has i ids ≡ true = subst (λ z. has z ids ≡ true) ((==_iff j i).0 e) old in
        rw (old, e) here
    | inr other ↦ rw (old, other) refl
  ]
  | inr new ↦ rw new (has-append i j ids)
]

targets-add :
    (s t : ℕ) (a : Adjacency) (i j : ℕ)
    → has j (targets (add_target s t a) i) ≡ ((s == i) && (t == j)) || has j (targets a i)
unfolding has targets add_target
targets-add s t [] i j = ground arith
targets-add s t ((k, ids) ∷ a) i j = ground (arith, targets-add s t a i j, has-add j t ids)

-- An edge that the search follows from one node to another.
abbrev joins : ℕ → ℕ → GraphEdge → Bool
joins i j e = is_acyclic e.relation_type && ((e.source_id == i) && (e.target_id == j))

joins_parts :
    (i j : ℕ) (e : GraphEdge)
    → joins i j e ≡ true
    → (is_acyclic e.relation_type ≡ true) × (e.source_id ≡ i) × (e.target_id ≡ j)
joins_parts i j e h = ground arith

parts_join :
    (i j : ℕ) (e : GraphEdge)
    → is_acyclic e.relation_type ≡ true
    → e.source_id ≡ i
    → e.target_id ≡ j
    → joins i j e ≡ true
parts_join i j e y p q = rw (y, (==_iff _ _).1 p, (==_iff _ _).1 q) refl

or_left : (b c : Bool) → b ≡ true → (b || c) ≡ true
or_left b c h = rw h refl

or_right : (b c : Bool) → c ≡ true → (b || c) ≡ true
or_right true c h = refl
or_right false c h = h

targets-edge :
    (e : GraphEdge) (a : Adjacency) (i j : ℕ)
    → has j (targets (add_edge e a) i) ≡ joins i j e || has j (targets a i)
targets-edge e a i j = elim (Bool-cases (is_acyclic e.relation_type)) [
  | inl y ↦ rw y (targets-add e.source_id e.target_id a i j)
  | inr n ↦ rw n refl
]

Links-IsEdge :
    (es : List GraphEdge) (a : Adjacency) (i j : ℕ)
    → has j (targets (build es a) i) ≡ true
    → (IsEdge es i j) ⊎ (has j (targets a i) ≡ true)
unfolding build
Links-IsEdge [] a i j h = inr h
Links-IsEdge (e ∷ es) a i j h = elim (Links-IsEdge es (add_edge e a) i j h) [
  | inl (d, m, y, p, q) ↦ inl (d, Memᴰ.tail m, y, p, q)
  | inr found ↦
      let cases : (joins i j e || has j (targets a i)) ≡ true =
        sym (targets-edge e a i j) ∙ found in
      elim (Bool-cases (joins i j e)) [
        | inl y ↦ let (p, q, r) = joins_parts i j e y in inl (e, Memᴰ.head refl, p, q, r)
        | inr n ↦ inr (rw n at cases)
      ]
]

kept :
    (es : List GraphEdge) (a : Adjacency) (i j : ℕ)
    → has j (targets a i) ≡ true
    → has j (targets (build es a) i) ≡ true
unfolding build
kept [] a i j h = h
kept (e ∷ es) a i j h = kept es (add_edge e a) i j (targets-edge e a i j ∙ or_right _ _ h)

IsEdge-Links :
    (es : List GraphEdge) (a : Adjacency) (i j : ℕ)
    → IsEdge es i j
    → has j (targets (build es a) i) ≡ true
unfolding build
IsEdge-Links [] a i j (d, m, y, p, q) = elim m [ ]
IsEdge-Links (e ∷ es) a i j (d, Memᴰ.head same, y, p, q) =
    let found : joins i j e ≡ true =
      subst (λ z. joins i j z ≡ true) same (parts_join i j d y p q) in
    kept es (add_edge e a) i j (targets-edge e a i j ∙ or_left _ _ found)
IsEdge-Links (e ∷ es) a i j (d, Memᴰ.tail m, y, p, q) =
    IsEdge-Links es (add_edge e a) i j (d, m, y, p, q)

pub Links-iff :
    (es : List GraphEdge) (i j : ℕ)
    → (Links (targets (build es [])) i j → IsEdge es i j)
      × (IsEdge es i j → Links (targets (build es [])) i j)
unfolding targets has
Links-iff es i j =
    (λ l. elim (Links-IsEdge es [] i j l) [ inl e ↦ e | inr none ↦ cc ], IsEdge-Links es [] i j)

-- A node with targets is a key, and there are as many keys as entries.
pub targets_key : (a : Adjacency) (i j : ℕ) → Links (targets a) i j → has i (keys a) ≡ true
unfolding targets has
targets_key [] i j h = cc
targets_key ((k, ids) ∷ a) i j h = ground (arith, targets_key a i j)

pub length-keys : (a : Adjacency) → length (keys a) ≡ length a
length-keys [] = refl
length-keys (e ∷ a) = ap suc (length-keys a)
