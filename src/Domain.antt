-- ===== src/Domain.antt =====
-- backend/app/v2/domain.py: the statuses of runs and steps, outcomes, step kinds and the table of
-- legal status transitions.
use omniverse_v.Prelude.{Bool, true, false, List, [], ◌∷◌, any}

pub data RunStatus : Type 0 where
  pending running waiting_retry waiting_input cancelling cancelled succeeded failed : RunStatus

pub data RunOutcome : Type 0 where
  complete partial outcome_failed outcome_cancelled : RunOutcome

pub data StepKind : Type 0 where
  inventory plan scout acquire extract synthesize audit integrate summarize completion : StepKind

-- The members of `StepKind` in the order of the class body.
abbrev pub step_kinds : List StepKind
step_kinds =
    inventory ∷ plan ∷ scout ∷ acquire ∷ extract ∷ synthesize ∷ audit ∷ integrate ∷ summarize
    ∷ completion ∷ []

abbrev pub same_status : RunStatus → RunStatus → Bool
same_status pending pending = true
same_status running running = true
same_status waiting_retry waiting_retry = true
same_status waiting_input waiting_input = true
same_status cancelling cancelling = true
same_status cancelled cancelled = true
same_status succeeded succeeded = true
same_status failed failed = true
same_status _ _ = false

-- TERMINAL_STATUSES.
abbrev pub is_terminal : RunStatus → Bool
is_terminal cancelled = true
is_terminal succeeded = true
is_terminal failed = true
is_terminal _ = false

-- LEGAL_TRANSITIONS.
abbrev pub legal_targets : RunStatus → List RunStatus
legal_targets pending = running ∷ cancelling ∷ cancelled ∷ []
legal_targets running =
    waiting_retry ∷ waiting_input ∷ cancelling ∷ cancelled ∷ succeeded ∷ failed ∷ []
legal_targets waiting_retry = running ∷ cancelling ∷ cancelled ∷ failed ∷ []
legal_targets waiting_input = running ∷ cancelling ∷ cancelled ∷ failed ∷ []
legal_targets cancelling = cancelled ∷ failed ∷ []
legal_targets cancelled = []
legal_targets succeeded = []
legal_targets failed = []

unfoldable pub legal_transition : RunStatus → RunStatus → Bool
unfolding any
legal_transition current target = any (same_status target) (legal_targets current)
