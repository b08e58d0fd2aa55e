-- ===== src/Context/Selection.antt =====
-- The selection of evidence in `build` of backend/app/v2/context.py.
use mathlib.Core.List.{Memᴰ}
use omniverse_v.Prelude.{
  ℕ, ◌+◌, ◌≤◌, ◌<◌, ◌≡◌, ◌⊎◌, inl, inr, List, [], ◌∷◌, arith, leb, Bool-cases, ltb, sort_by,
  Memᴰ-sort_by,
}
use omniverse_v.Context.{
  EvidenceItem, ProviderKind, estimate_tokens, select, BudgetRequest, ContextBudget, BuiltContext,
  ok, allocate, build, precedes, Text, assemble,
}

-- The tokens of a list of items.
unfoldable pub weight : ProviderKind → List EvidenceItem → ℕ
weight kind [] = 0
weight kind (item ∷ items) = estimate_tokens kind item.extract + weight kind items

-- What the selection has used is what it had used and the weight of the items that it took.
select-weight :
    (kind : ProviderKind) (limit used : ℕ) (items : List EvidenceItem)
    → (select kind limit used items).1 ≡ used + weight kind (select kind limit used items).0
unfolding select weight
select-weight kind limit used [] = omega arith
select-weight kind limit used (item ∷ items) =
    elim (Bool-cases (leb (used + estimate_tokens kind item.extract) limit)) [
      | inl fits ↦
          rw fits (
            omega
              (arith, select-weight kind limit (used + estimate_tokens kind item.extract) items))
      | inr full ↦ rw full (select-weight kind limit used items)
    ]

select-le-limit :
    (kind : ProviderKind) (limit used : ℕ) (items : List EvidenceItem)
    → used ≤ limit
    → (select kind limit used items).1 ≤ limit
unfolding select
select-le-limit kind limit used [] h = h
select-le-limit kind limit used (item ∷ items) h =
    elim (Bool-cases (leb (used + estimate_tokens kind item.extract) limit)) [
      | inl fits ↦ rw fits (
          select-le-limit kind limit (used + estimate_tokens kind item.extract) items
            (ground arith))
      | inr full ↦ rw full (select-le-limit kind limit used items h)
    ]

-- An item that the selection left out does not fit beside what it took.
select-maximal :
    (kind : ProviderKind) (limit used : ℕ) (items : List EvidenceItem) (y : EvidenceItem)
    → Memᴰ y items
    → Memᴰ y (select kind limit used items).0
      ⊎ (limit < (select kind limit used items).1 + estimate_tokens kind y.extract)
unfolding select
select-maximal kind limit used [] y m = elim m [ ]
select-maximal kind limit used (item ∷ items) y (Memᴰ.head e) =
    elim (Bool-cases (leb (used + estimate_tokens kind item.extract) limit)) [
      | inl fits ↦ rw fits (inl (Memᴰ.head e))
      | inr full ↦ rw full (inr (rw e (ground (arith, select-weight kind limit used items))))
    ]
select-maximal kind limit used (item ∷ items) y (Memᴰ.tail m) =
    elim (Bool-cases (leb (used + estimate_tokens kind item.extract) limit)) [
      | inl fits ↦
          rw fits
            (elim (select-maximal kind limit (used + estimate_tokens kind item.extract) items y m) [
              | inl taken ↦ inl (Memᴰ.tail taken)
              | inr heavy ↦ inr heavy
            ])
      | inr full ↦ rw full (select-maximal kind limit used items y m)
    ]

-- What `build` has returned, given the budget.
build-assemble :
    (r : BudgetRequest) (b : ContextBudget) (text : Text) (items : List EvidenceItem)
    (unresolved : ℕ) (c : BuiltContext)
    → allocate r ≡ ok b
    → build r text items unresolved ≡ ok c
    → c ≡ assemble r b text items
unfolding build
build-assemble r b text items unresolved c e h =
    elim (Bool-cases (ltb (b.evidence + b.contradictions) unresolved)) [
      | inl over ↦ cc (rw over at (rw e at h))
      | inr room ↦ cc (rw room at (rw e at h))
    ]

-- The evidence of a context that `build` returns keeps to the tokens that the budget has for
-- evidence and contradictions, and the context reports the tokens of just the items that it has.
pub build-evidence_fits :
    (r : BudgetRequest) (b : ContextBudget) (text : Text) (items : List EvidenceItem)
    (unresolved : ℕ) (c : BuiltContext)
    → allocate r ≡ ok b
    → build r text items unresolved ≡ ok c
    → (c.evidence_tokens ≤ b.evidence + b.contradictions)
      × (c.evidence_tokens ≡ weight r.provider_kind c.selected)
build-evidence_fits r b text items unresolved c e h =
    rw (build-assemble r b text items unresolved c e h) (
      select-le-limit r.provider_kind (b.evidence + b.contradictions) 0 (sort_by precedes items)
          (omega arith),
      omega (
        arith,
        select-weight r.provider_kind (b.evidence + b.contradictions) 0 (sort_by precedes items),
      ),
    )

-- An item of evidence that a context leaves out does not fit beside the items that it has.
pub build_leaves_no_room :
    (r : BudgetRequest) (b : ContextBudget) (text : Text) (items : List EvidenceItem)
    (unresolved : ℕ) (c : BuiltContext) (y : EvidenceItem)
    → allocate r ≡ ok b
    → build r text items unresolved ≡ ok c
    → Memᴰ y items
    → Memᴰ y c.selected
      ⊎ (b.evidence + b.contradictions
          < c.evidence_tokens + estimate_tokens r.provider_kind y.extract)
build_leaves_no_room r b text items unresolved c y e h m =
    rw (build-assemble r b text items unresolved c e h) (
      select-maximal r.provider_kind (b.evidence + b.contradictions) 0 (sort_by precedes items) y
        (Memᴰ-sort_by precedes items y m))
