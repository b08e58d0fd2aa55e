-- ===== src/Graph/Marking.antt =====
-- What a call of `visit` leaves of the nodes that are marked.
use omniverse_v.Prelude.{
  ℕ, zero, suc, ◌⊎◌, ◌≢◌, ◌==◌, ◌≡◌, refl, sym, ◌∙◌, ap, true, false, not, List, [], ◌∷◌, filter,
  Bool-cases, inl, inr, arith, ==_iff, has, has-head, has-tail,
}
use omniverse_v.Graph.{
  Marks, Search, done, cycle, out_of_fuel, ◌>>=◌, enter, leave, visit_all, visit,
}

-- To remove a node that is not there changes nothing.
remove_absent : (i : ℕ) (is : List ℕ) → has i is ≡ false → filter (λ j. not (j == i)) is ≡ is
unfolding has filter
remove_absent i [] h = refl
remove_absent i (j ∷ is) h = ground (arith, remove_absent i is)

pub leave_restores :
    (node : ℕ) (t : Marks) (vs : List ℕ)
    → has node vs ≡ false
    → t.visiting ≡ node ∷ vs
    → (leave node t).visiting ≡ vs
unfolding filter
leave_restores node t vs h e = rw e (rw ((==_iff node node).1 refl) (remove_absent node vs h))

-- Calls that return put the marks of the nodes on the way back.
abbrev Restores : (ℕ → Marks → Search) → Type 0
Restores f = (i : ℕ) (m t : Marks) → f i m ≡ done t → t.visiting ≡ m.visiting

-- The search after some calls that returned.
pub >>=-done :
    (r : Search) (f : Marks → Search) (t : Marks)
    → (r >>= f) ≡ done t
    → (u : Marks) × (r ≡ done u) × (f u ≡ done t)
>>=-done (done u) f t e = (u, refl, e)
>>=-done cycle f t e = cc
>>=-done out_of_fuel f t e = cc

pub visit_all_restores :
    (f : ℕ → Marks → Search) (ids : List ℕ) (m t : Marks)
    → ((i : ℕ) (m t : Marks) → f i m ≡ done t → t.visiting ≡ m.visiting)
    → visit_all f ids m ≡ done t
    → t.visiting ≡ m.visiting
unfolding visit_all
visit_all_restores f [] m t h e = cc
visit_all_restores f (i ∷ ids) m t h e =
    let (u, p, q) = >>=-done (f i m) (visit_all f ids) t e in
    visit_all_restores f ids u t h q ∙ h i m u p

-- The three ways in which a call of `visit` goes.
pub visit_cases :
    (next : ℕ → List ℕ) (depth node : ℕ) (m t : Marks)
    → visit next (suc depth) node m ≡ done t
    → (has node m.visiting ≡ false)
      × (((has node m.visited ≡ true) × (m ≡ t))
          ⊎ ((u : Marks) × (visit_all (visit next depth) (next node) (enter node m) ≡ done u)
              × (leave node u ≡ t)))
unfolding visit
visit_cases next depth node m t e = elim (Bool-cases (has node m.visiting)) [
  | inl loop ↦ cc (rw loop at e)
  | inr clear ↦ elim (Bool-cases (has node m.visited)) [
    | inl old ↦ (clear, inl (old, cc (rw (clear, old) at e)))
    | inr new ↦
        let (u, p, q) = >>=-done _ (λ u. done (leave node u)) t (rw (clear, new) at e) in
        (clear, inr (u, p, cc))
  ]
]

pub visit_restores :
    (next : ℕ → List ℕ) (depth node : ℕ) (m t : Marks)
    → visit next depth node m ≡ done t
    → t.visiting ≡ m.visiting
unfolding visit
visit_restores next zero node m t e = cc
visit_restores next (suc depth) node m t e =
    let (clear, way) = visit_cases next depth node m t e in
    elim way [
      | inl (old, same) ↦ ap (λ z. z.visiting) (sym same)
      | inr (u, p, q) ↦
          let inner =
            visit_all_restores (visit next depth) (next node) (enter node m) u
              (visit_restores next depth) p in
          ap (λ z. z.visiting) (sym q) ∙ leave_restores node u m.visiting clear inner
    ]

-- A search that does not return stops in a call or in what follows it.
pub >>=-stops :
    (r : Search) (f : Marks → Search) (bad : Search)
    → (r >>= f) ≡ bad
    → (r ≡ bad) ⊎ ((u : Marks) × (r ≡ done u) × (f u ≡ bad))
>>=-stops (done u) f bad e = inr (u, refl, e)
>>=-stops cycle f bad e = inl e
>>=-stops out_of_fuel f bad e = inl e

-- Of some calls that do not all return, one has not, and the nodes on the way were the same before.
pub visit_all_stops {ℓ} :
    {G : Type ℓ} (f : ℕ → Marks → Search) (ids : List ℕ) (m : Marks) (bad : Search) (vs : List ℕ)
    → ((i : ℕ) (m t : Marks) → f i m ≡ done t → t.visiting ≡ m.visiting)
    → ((i : ℕ) (m : Marks) → m.visiting ≡ vs → has i ids ≡ true → f i m ≡ bad → G)
    → ((t : Marks) → done t ≢ bad)
    → m.visiting ≡ vs
    → visit_all f ids m ≡ bad
    → G
unfolding visit_all
visit_all_stops f [] m bad vs keep case returns v e = absurd (returns m e)
visit_all_stops f (i ∷ ids) m bad vs keep case returns v e =
    elim (>>=-stops (f i m) (visit_all f ids) bad e) [
      | inl here ↦ case i m v (has-head i ids) here
      | inr (u, p, q) ↦
          visit_all_stops f ids u bad vs keep (λ j t w h. case j t w (has-tail j i ids h)) returns
            (keep i m u p ∙ v) q
    ]
