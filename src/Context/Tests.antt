-- ===== src/Context/Tests.antt =====
-- Concrete budgets and contexts.
use mathlib.Core.List.{Memᴰ}
use omniverse_v.Prelude.{
  ◌≡◌, refl, ◌<◌, ◌≤◌, ◌+◌, ◌*◌, ◌⊎◌, ℕ, none, some, List, [], ◌∷◌, false, true, zero, suc, arith,
  length, sort_by, insert_by,
}
use omniverse_v.Context.{
  BudgetRequest, ContextBudget, EvidenceItem, BuiltContext, Text, other, allocate, build,
  estimate_tokens, compact, select,
}
use omniverse_v.Context.Budget.{IsPartition, allocate-IsPartition, compact_overshoots}
use omniverse_v.Context.Selection.{weight, build-evidence_fits, build_leaves_no_room}

abbrev request : BudgetRequest
request = record {
  provider_kind = other;
  context_window = 10000;
  output_tokens = 4000;
  configured_cap = some 5020;
  tool_schema = none;
  safety_tokens = 1000;
}

-- Twenty tokens are available.
abbrev budget : ContextBudget
budget = record {
  total = 5020;
  output = 4000;
  tools = 0;
  safety = 1000;
  instructions = 3;
  state = 2;
  contradictions = 5;
  evidence = 10;
}

abbrev letters : ℕ → Text
letters zero = []
letters (suc n) = 97 ∷ letters n

abbrev long_item : EvidenceItem
long_item = record {
  evidence_id = 1;
  source_id = 8;
  node_id = 9;
  extract = letters 40;
  priority = 0;
  contradiction = true;
}

abbrev short_item : EvidenceItem
short_item = record {
  evidence_id = 2;
  source_id = 8;
  node_id = 9;
  extract = letters 20;
  priority = 0;
  contradiction = false;
}

abbrev items : List EvidenceItem
items = short_item ∷ long_item ∷ []

abbrev context : BuiltContext
context = record {
  instructions = letters 3;
  selected = long_item ∷ [];
  instruction_tokens = 1;
  evidence_tokens = 11;
}

allocate-IsPartition_example : IsPartition request budget × (0 < budget.evidence)
unfolding allocate
allocate-IsPartition_example = allocate-IsPartition request budget refl

compact_overshoots_example :
    (length (compact 1 (letters 9)) ≡ 1 * 4)
    × (estimate_tokens other (compact 1 (letters 9)) ≡ 1 + 1)
unfolding estimate_tokens
compact_overshoots_example = compact_overshoots 1 (letters 9) (omega arith) (omega arith)

build-evidence_fits_example :
    (context.evidence_tokens ≤ budget.evidence + budget.contradictions)
    × (context.evidence_tokens ≡ weight other context.selected)
unfolding allocate build estimate_tokens compact select sort_by insert_by
build-evidence_fits_example =
    build-evidence_fits request budget (letters 3) items 4 context refl refl

build_leaves_no_room_example :
    Memᴰ short_item context.selected
    ⊎ (budget.evidence + budget.contradictions
        < context.evidence_tokens + estimate_tokens other short_item.extract)
unfolding allocate build estimate_tokens compact select sort_by insert_by
build_leaves_no_room_example =
    build_leaves_no_room request budget (letters 3) items 4 context short_item refl refl
      (Memᴰ.head refl)
