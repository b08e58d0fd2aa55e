-- ===== src/Context.antt =====
-- The token budget of backend/app/v2/context.py. A text is the list of its code points. The
-- fractions of the source are whole percentages here, rounded down: for token counts far below
-- 2 ^ 50 its products of floats round down to the same integers.
pub mod Budget
pub mod Selection
mod Tests
use omniverse_v.Prelude.{
  ℕ, zero, suc, ◌+◌, ◌-◌, ◌*◌, ◌/◌, ◌≤◌, ◌<◌, ◌≡◌, Bool, true, false, ◌&&◌, ◌||◌, Option, none,
  some, List, [], ◌∷◌, ◌++◌, ◌==◌, leb, ltb, if◌then◌else◌, length, sort_by,
}
use Prim.Native.Nat.{min, max}

abbrev pub Text : Type 0
Text = List ℕ

abbrev pub take {ℓ} : {A : Type ℓ} → ℕ → List A → List A
take zero xs = []
take (suc n) [] = []
take (suc n) (x ∷ xs) = x ∷ take n xs

abbrev pub drop {ℓ} : {A : Type ℓ} → ℕ → List A → List A
drop zero xs = xs
drop (suc n) [] = []
drop (suc n) (x ∷ xs) = drop n xs

-- Only GEMINI is counted differently.
pub data ProviderKind : Type 0 where
  gemini other : ProviderKind

abbrev pub baseline_tokens : ℕ
baseline_tokens = 40000

-- `int(len(text) / divisor)`: the divisor is 3.5 or 4.
abbrev pub quotient : ProviderKind → ℕ → ℕ
quotient gemini n = n * 2 / 7
quotient other n = n / 4

-- A schema is given as its JSON text.
unfoldable pub estimate_tokens : ProviderKind → Text → ℕ
estimate_tokens kind text = max 1 (quotient kind (length text) + 1)

-- `tool_schema` is none for a schema that is absent or empty.
pub record BudgetRequest : Type 0 where
  pub provider_kind : ProviderKind
  pub context_window : ℕ
  pub output_tokens : ℕ
  pub configured_cap : Option ℕ
  pub tool_schema : Option Text
  pub safety_tokens : ℕ

pub record ContextBudget : Type 0 where
  pub total : ℕ
  pub output : ℕ
  pub tools : ℕ
  pub safety : ℕ
  pub instructions : ℕ
  pub state : ℕ
  pub contradictions : ℕ
  pub evidence : ℕ

pub data BudgetResult (A : Type 0) : Type 0 where
  ok : A → BudgetResult A
  overflow : BudgetResult A

infixl 5 ◌>>=◌
abbrev pub ◌>>=◌ : {A B : Type 0} → BudgetResult A → (A → BudgetResult B) → BudgetResult B
ok a >>= f = f a
overflow >>= f = overflow

abbrev pub desired : Option ℕ → ℕ
desired none = baseline_tokens
desired (some cap) = cap

abbrev pub tool_tokens : ProviderKind → Option Text → ℕ
tool_tokens kind none = 0
tool_tokens kind (some schema) = estimate_tokens kind schema

-- The categories of a budget with this much available.
abbrev pub divide : ℕ → BudgetRequest → ℕ → ℕ → ContextBudget
divide total r tools available =
    let instructions = min 6000 (available * 18 / 100) in
    let state = min 5000 (available * 14 / 100) in
    let contradictions = min (6000 + (total - baseline_tokens) / 4) (available / 4) in
    record {
      total = total;
      output = r.output_tokens;
      tools = tools;
      safety = r.safety_tokens;
      instructions = instructions;
      state = state;
      contradictions = contradictions;
      evidence = available - instructions - state - contradictions;
    }

-- `allocate`. The test `available <= 0` is made before the subtraction.
unfoldable pub allocate : BudgetRequest → BudgetResult ContextBudget
allocate r =
    let total = min r.context_window (desired r.configured_cap) in
    let tools = tool_tokens r.provider_kind r.tool_schema in
    let reserved = r.output_tokens + tools + r.safety_tokens in
    if leb total reserved then overflow else ok (divide total r tools (total - reserved))

-- `extraction_character_budget`.
unfoldable pub extraction_character_budget : ℕ → ProviderKind → BudgetResult ℕ
unfolding allocate
extraction_character_budget window kind =
    allocate (record {
      provider_kind = kind;
      context_window = window;
      output_tokens = 4000;
      configured_cap = some window;
      tool_schema = none;
      safety_tokens = 1000;
    })
    >>= λ b. ok (max 4000 (b.evidence * 4))

-- The fields of an item that `build` reads. Identifiers are numbers in the order of their texts, and
-- priorities are counted from the lowest.
pub record EvidenceItem : Type 0 where
  pub evidence_id : ℕ
  pub source_id : ℕ
  pub node_id : ℕ
  pub extract : Text
  pub priority : ℕ
  pub contradiction : Bool

pub record BuiltContext : Type 0 where
  pub instructions : Text
  pub selected : List EvidenceItem
  pub instruction_tokens : ℕ
  pub evidence_tokens : ℕ

-- The key `(-value.contradiction, value.priority, value.evidence_id)`.
abbrev pub rank : Bool → ℕ
rank true = 0
rank false = 1

abbrev pub precedes : EvidenceItem → EvidenceItem → Bool
precedes a b =
    ltb (rank a.contradiction) (rank b.contradiction)
    || (rank a.contradiction == rank b.contradiction
        && (ltb a.priority b.priority
            || (a.priority == b.priority && leb a.evidence_id b.evidence_id)))

-- The loop of `build`: an item is taken if it still fits.
unfoldable pub select : ProviderKind → ℕ → ℕ → List EvidenceItem → List EvidenceItem × ℕ
select kind limit used [] = ([], used)
select kind limit used (item ∷ items) =
    let tokens = estimate_tokens kind item.extract in
    let fits = leb (used + tokens) limit in
    let (rest, total) = select kind limit (if fits then used + tokens else used) items in
    if fits then (item ∷ rest, total) else (rest, total)

-- `text[-n:]`, which is the whole text for n = 0.
abbrev pub last : ℕ → Text → Text
last zero text = text
last (suc n) text = drop (length text - suc n) text

-- `instructions[: limit // 2] + instructions[-limit // 2 :]` with a limit of four characters a token.
unfoldable pub compact : ℕ → Text → Text
compact budget text = take (budget * 2) text ++ last (budget * 2) text

abbrev pub fit_instructions : ProviderKind → ℕ → Text → Text
fit_instructions kind budget text =
    if ltb budget (estimate_tokens kind text) then compact budget text else text

abbrev pub assemble : BudgetRequest → ContextBudget → Text → List EvidenceItem → BuiltContext
assemble r b instructions evidence =
    let fitted = fit_instructions r.provider_kind b.instructions instructions in
    let (selected, used) =
      select r.provider_kind (b.evidence + b.contradictions) 0 (sort_by precedes evidence) in
    record {
      instructions = fitted;
      selected = selected;
      instruction_tokens = estimate_tokens r.provider_kind fitted;
      evidence_tokens = used;
    }

-- `build`.
unfoldable pub build : BudgetRequest → Text → List EvidenceItem → ℕ → BudgetResult BuiltContext
unfolding allocate compact select
build r instructions evidence unresolved = allocate r >>= λ b.
    if ltb (b.evidence + b.contradictions) unresolved
    then overflow
    else ok (assemble r b instructions evidence)
