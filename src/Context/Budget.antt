-- ===== src/Context/Budget.antt =====
-- The categories of a budget.
use mathlib.Core.Path.{subst}
use Prim.Native.Nat.{min}
use omniverse_v.Prelude.{
  ℕ, zero, suc, ◌+◌, ◌-◌, ◌*◌, ◌/◌, ◌≤◌, ◌<◌, ◌≡◌, [], ◌∷◌, ◌++◌, arith, leb, length, Bool-cases,
  inl, inr,
}
use omniverse_v.Context.{
  BudgetRequest, ContextBudget, ok, allocate, divide, desired, tool_tokens, Text, take, drop, last,
  compact, estimate_tokens, other,
}

-- A budget's categories and reserves add up to its total, which the window bounds; instructions,
-- state and contradictions keep to their caps, contradictions have at most a quarter of what is
-- available, and evidence has at least 43 of every 100 tokens that are.
pub record IsPartition (r : BudgetRequest) (b : ContextBudget) : Type 0 where
  pub adds_up :
      b.output + b.tools + b.safety + b.instructions + b.state + b.contradictions + b.evidence
      ≡ b.total
  pub within : b.total ≤ r.context_window
  pub instructions_capped : b.instructions ≤ 6000
  pub state_capped : b.state ≤ 5000
  pub contradictions_capped : b.contradictions ≤ 6000 + (b.total - 40000) / 4
  pub contradictions_share :
      b.contradictions * 4 ≤ b.instructions + b.state + b.contradictions + b.evidence
  pub evidence_share :
      (b.instructions + b.state + b.contradictions + b.evidence) * 43 ≤ b.evidence * 100

divide-IsPartition :
    (r : BudgetRequest) (total tools available : ℕ)
    → total ≤ r.context_window
    → r.output_tokens + tools + r.safety_tokens + available ≡ total
    → IsPartition r (divide total r tools available)
divide-IsPartition r total tools available h e = omega arith

-- The categories and reserves of a budget that `allocate` returns add up to its total, which the
-- window bounds; instructions keep to 6,000 tokens, state to 5,000, and contradictions to 6,000 and a
-- quarter of the total above 40,000; contradictions have at most a quarter of the tokens that are
-- available, and evidence at least 43 of every 100, and more than none.
pub allocate-IsPartition :
    (r : BudgetRequest) (b : ContextBudget) → allocate r ≡ ok b → IsPartition r b × (0 < b.evidence)
unfolding allocate
allocate-IsPartition r b e =
    let tools = tool_tokens r.provider_kind r.tool_schema in
    let total = min r.context_window (desired r.configured_cap) in
    let reserved = r.output_tokens + tools + r.safety_tokens in
    elim (Bool-cases (leb total reserved)) [
      | inl full ↦ cc (rw full at e)
      | inr room ↦
          let less : reserved < total = ground arith in
          let part : IsPartition r (divide total r tools (total - reserved)) =
            divide-IsPartition r total tools (total - reserved) (omega arith) (omega arith) in
          let same : divide total r tools (total - reserved) ≡ b = cc (rw room at e) in
          subst (λ c. IsPartition r c × (0 < c.evidence)) same (part, omega arith)
    ]

length-take : (n : ℕ) (xs : Text) → length (take n xs) ≡ min n (length xs)
length-take zero xs = omega arith
length-take (suc n) [] = omega arith
length-take (suc n) (x ∷ xs) = omega (arith, length-take n xs)

length-drop : (n : ℕ) (xs : Text) → length (drop n xs) ≡ length xs - n
length-drop zero xs = omega arith
length-drop (suc n) [] = omega arith
length-drop (suc n) (x ∷ xs) = omega (arith, length-drop n xs)

length-append : (xs ys : Text) → length (xs ++ ys) ≡ length xs + length ys
length-append [] ys = omega arith
length-append (x ∷ xs) ys = omega (arith, length-append xs ys)

length-last : (n : ℕ) (xs : Text) → 0 < n → length (last n xs) ≡ min n (length xs)
length-last zero xs h = elim h [ ]
length-last (suc n) xs h = omega (arith, length-drop (length xs - suc n) xs)

-- Instructions of more tokens than a positive budget, at four characters a token, are compacted
-- to exactly four characters for each token of the budget, and are then estimated at one token
-- more than the budget.
pub compact_overshoots :
    (budget : ℕ) (text : Text)
    → 0 < budget
    → budget < estimate_tokens other text
    → (length (compact budget text) ≡ budget * 4)
      × (estimate_tokens other (compact budget text) ≡ budget + 1)
unfolding compact estimate_tokens
compact_overshoots budget text h over =
    let size : length (take (budget * 2) text ++ last (budget * 2) text) ≡ budget * 4 = omega (
      arith,
      length-append (take (budget * 2) text) (last (budget * 2) text),
      length-take (budget * 2) text,
      length-last (budget * 2) text (omega arith),
    ) in
    (size, omega arith)
