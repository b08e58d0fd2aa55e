-- ===== src/Router/Complete.antt =====
-- The tries of `complete` in backend/app/v2/routing.py. What an adapter and the response validator
-- make of a try is a parameter, which also sees how many tries there were. Log entries are left out.
use omniverse_v.Prelude.{
  ℕ, suc, ◌+◌, ◌-◌, Bool, true, false, not, ◌&&◌, ◌||◌, Option, none, some, List, [], ◌∷◌, ◌++◌,
  ◌==◌, leb, any, is_some, modify_first, if◌then◌else◌,
}
use omniverse_v.Router.{
  ErrorClass, auth, rate_limit, transient, capability, context, input, internal, ProviderKind,
  openai, gemini, openai_compatible, openrouter, other_kind, CandidateHealth, CredentialHealth,
  Tables, Snapshot, new_health, is_health_of, is_candidate, is_over, snapshots,
}

pub record RoutingRequirements : Type 0 where
  pub tools : Bool
  pub structured : Bool
  pub text : Bool
  pub input_tokens : ℕ
  pub output_tokens : ℕ

-- `structured` tells a StructuredOutputValidationError.
pub record ProviderError : Type 0 where
  pub error_class : ErrorClass
  pub retry_after : Option ℕ
  pub structured : Bool

-- A try ends with a response, with a ProviderError, or with another exception, one of the credential
-- store or the validator included.
pub data Answer (Response : Type 0) : Type 0 where
  replied : Response → Answer Response
  refused : ProviderError → Answer Response
  broken : ℕ → Answer Response

-- `effective_input_window`.
unfoldable pub effective_input_window : ProviderKind → ℕ → ℕ → ℕ
effective_input_window other_kind window output = window
effective_input_window openai window output = window - output
effective_input_window gemini window output = window - output
effective_input_window openai_compatible window output = window - output
effective_input_window openrouter window output = window - output

-- `a or b` for a count that may be absent.
abbrev pub or_count : Option ℕ → ℕ → ℕ
or_count none b = b
or_count (some a) b = if a == 0 then b else a

-- The tokens that are kept for the output.
abbrev pub output_for : RoutingRequirements → Option ℕ → Snapshot → ℕ
output_for q max_output_tokens p =
    or_count (some q.output_tokens) (or_count max_output_tokens (or_count p.output_limit 0))

abbrev pub fits_window : RoutingRequirements → Option ℕ → Snapshot → Option ℕ → Bool
fits_window q max_output_tokens p none = false
fits_window q max_output_tokens p (some window) =
    leb q.input_tokens
      (effective_input_window p.provider_kind window (output_for q max_output_tokens p))

-- The guards before the credentials of a candidate are tried.
unfoldable pub is_usable : RoutingRequirements → Option ℕ → (ℕ → Bool) → ℕ → Snapshot → Bool
unfolding effective_input_window
is_usable q max_output_tokens has_adapter now p =
    (not q.tools || p.supports_tools)
    && ((not q.structured || p.supports_structured)
        && ((not q.text || p.supports_text)
            && (fits_window q max_output_tokens p p.context_window
                && (is_over p.candidate_cooldown now && has_adapter p.provider_id))))

-- The tables of health and the local variables of `complete`.
pub record Routing : Type 0 where
  pub credential_healths : List CredentialHealth
  pub candidate_healths : List CandidateHealth
  pub tries : ℕ
  pub unavailable_credentials : List ℕ
  pub unavailable_executions : List (ℕ × ℕ)
  pub candidate_retryable : Option ProviderError
  pub last_retryable : Option ProviderError
  pub terminal_error : Option ProviderError

-- A write to the health of a credential, which is made if it is missing.
abbrev pub write_health :
    ℕ → (CredentialHealth → CredentialHealth) → List CredentialHealth → List CredentialHealth
write_health i f rows =
    if any (is_health_of i) rows
    then modify_first (is_health_of i) f rows
    else rows ++ f (new_health i) ∷ []

abbrev pub set_health : ℕ → (CredentialHealth → CredentialHealth) → Routing → Routing
set_health i f s = record s { credential_healths = write_health i f s.credential_healths }

abbrev pub new_candidate_health : ℕ → CandidateHealth
new_candidate_health i = record {
  candidate_id = i;
  cooldown_until = none;
  failure_count = 0;
  last_error_class = none;
}

abbrev pub set_candidate : ℕ → (CandidateHealth → CandidateHealth) → Routing → Routing
set_candidate i f s = record s {
  candidate_healths =
      if any (is_candidate i) s.candidate_healths
      then modify_first (is_candidate i) f s.candidate_healths
      else s.candidate_healths ++ f (new_candidate_health i) ∷ [];
}

-- `error.retry_after or 30`.
abbrev pub delay : ProviderError → ℕ
delay e = or_count e.retry_after 30

-- A turn of the loop over credentials: `return`, `continue`, `break` or an exception.
pub data Turn (Response : Type 0) : Type 0 where
  responded : Response → Routing → Turn Response
  go_on : Routing → Turn Response
  leave : Routing → Turn Response
  threw : ℕ → Routing → Turn Response

abbrev pub count_failure : ProviderError → CredentialHealth → CredentialHealth
count_failure e h = record h {
  last_error_class = some e.error_class;
  failure_count = suc h.failure_count;
}

abbrev pub cool_down : ℕ → ProviderError → Routing → ℕ → Routing
cool_down now e s i =
    record (set_health i (λ h. record (count_failure e h) { cooldown_until = some (now + delay e) })
      s) {
        unavailable_credentials = i ∷ s.unavailable_credentials;
        last_retryable = some e;
        candidate_retryable = some e;
      }

abbrev pub count_candidate : ProviderError → CandidateHealth → CandidateHealth
count_candidate e h = record h {
  failure_count = suc h.failure_count;
  last_error_class = some e.error_class;
}

-- A reply that fails validation is counted against the candidate.
abbrev pub invalid_output : Snapshot → ProviderError → Routing → Routing
invalid_output p e s =
    if e.structured
    then record (set_candidate p.candidate_id (count_candidate e) s) {
      unavailable_executions = (p.candidate_id, p.provider_model_id) ∷ s.unavailable_executions;
    }
    else s

-- The cooldown of a candidate whose last credential failed for a while.
abbrev pub cool_candidate : ℕ → Snapshot → Routing → Option ProviderError → Routing
cool_candidate now p s none = s
cool_candidate now p s (some e) =
    set_candidate p.candidate_id
      (λ h. record (count_candidate e h) { cooldown_until = some (now + delay e) }) s

abbrev pub was_invalid : Snapshot → ℕ × ℕ → Bool
was_invalid p (candidate, model) = candidate == p.candidate_id && model == p.provider_model_id

module _ {Response : Type 0} where
  -- The handler of ProviderError.
  abbrev pub after_error : ℕ → Snapshot → ℕ → ProviderError → Routing → ErrorClass → Turn Response
  after_error now p i e s auth =
      go_on (record (set_health i (λ h. record (count_failure e h) { disabled = true }) s) {
        unavailable_credentials = i ∷ s.unavailable_credentials;
      })
  after_error now p i e s rate_limit = go_on (cool_down now e s i)
  after_error now p i e s transient = go_on (cool_down now e s i)
  after_error now p i e s capability =
      leave (record (invalid_output p e s) { last_retryable = some e })
  after_error now p i e s context = leave (record s { terminal_error = some e })
  after_error now p i e s input = leave (record s { terminal_error = some e })
  after_error now p i e s internal = leave (record s { terminal_error = some e })

  abbrev pub after_try : ℕ → Snapshot → ℕ → Routing → Answer Response → Turn Response
  after_try now p i s (replied r) =
      responded r (set_health i (λ h. record h { failure_count = 0; last_error_class = none }) s)
  after_try now p i s (refused e) = after_error now p i e s e.error_class
  after_try now p i s (broken x) = threw x s

  -- `health.selection_count += 1`, and the try itself.
  abbrev pub try_credential :
      (ℕ → Snapshot → ℕ × ℕ → Answer Response) → ℕ → Snapshot → ℕ × ℕ → Routing → Turn Response
  try_credential attempt now p (i, opaque_ref) s =
      after_try now p i
        (record (set_health i (λ h. record h { selection_count = suc h.selection_count }) s) {
          tries = suc s.tries;
        })
        (attempt s.tries p (i, opaque_ref))

  -- What follows a turn of the loop.
  abbrev pub follow : Turn Response → (Routing → Turn Response) → Turn Response
  follow (responded r s) rest = responded r s
  follow (go_on s) rest = rest s
  follow (leave s) rest = leave s
  follow (threw x s) rest = threw x s

  unfoldable pub try_credentials :
      (ℕ → Snapshot → ℕ × ℕ → Answer Response)
      → ℕ
      → Snapshot
      → List (ℕ × ℕ)
      → Routing
      → Turn Response
  try_credentials attempt now p [] s = go_on s
  try_credentials attempt now p (c ∷ cs) s =
      follow
        (if any (λ i. i == c.0) s.unavailable_credentials
          then go_on s
          else try_credential attempt now p c s)
        (try_credentials attempt now p cs)

  -- The end of a candidate's turn: a terminal error leaves the loop over candidates.
  abbrev pub close_candidate : ℕ → Snapshot → Routing → Turn Response
  close_candidate now p s =
      let t = cool_candidate now p s s.candidate_retryable in
      if is_some t.terminal_error then leave t else go_on t

  abbrev pub after_credentials : ℕ → Snapshot → Turn Response → Turn Response
  after_credentials now p (responded r s) = responded r s
  after_credentials now p (go_on s) = close_candidate now p s
  after_credentials now p (leave s) = close_candidate now p s
  after_credentials now p (threw x s) = threw x s

module _ {Response : Type 0} (attempt : ℕ → Snapshot → ℕ × ℕ → Answer Response)
    (q : RoutingRequirements) (max_output_tokens : Option ℕ) (has_adapter : ℕ → Bool)
    (now : ℕ) where
  unfoldable pub try_candidate : Snapshot → Routing → Turn Response
  unfolding try_credentials
  try_candidate p s =
      let s1 = record s { candidate_retryable = none } in
      if any (was_invalid p) s.unavailable_executions
      then go_on s1
      else if is_usable q max_output_tokens has_adapter now p
      then after_credentials now p (try_credentials attempt now p p.credential_refs s1)
      else go_on s1

  unfoldable pub try_candidates : List Snapshot → Routing → Turn Response
  unfolding try_candidate
  try_candidates [] s = go_on s
  try_candidates (p ∷ ps) s = follow (try_candidate p s) (try_candidates ps)

-- What the caller of `complete` gets.
pub data Completed (Response : Type 0) : Type 0 where
  returned : Response → Completed Response
  raised : ProviderError → Completed Response
  broke : ℕ → Completed Response

-- `ProviderError(ErrorClass.TRANSIENT, "no healthy route")`.
abbrev pub no_healthy_route : ProviderError
no_healthy_route = record { error_class = transient; retry_after = none; structured = false }

abbrev pub final_error : Option ProviderError → Option ProviderError → ProviderError
final_error (some e) last = e
final_error none (some e) = e
final_error none none = no_healthy_route

abbrev pub conclude : {Response : Type 0} → Turn Response → Completed Response × Routing
conclude (responded r s) = (returned r, s)
conclude (go_on s) = (raised (final_error s.terminal_error s.last_retryable), s)
conclude (leave s) = (raised (final_error s.terminal_error s.last_retryable), s)
conclude (threw x s) = (broke x, s)

abbrev pub begin : Tables → Routing
begin t = record {
  credential_healths = t.credential_healths;
  candidate_healths = t.candidate_healths;
  tries = 0;
  unavailable_credentials = [];
  unavailable_executions = [];
  candidate_retryable = none;
  last_retryable = none;
  terminal_error = none;
}

-- `complete` for a task, on the tables as `ensure_persisted` of the credential service leaves them.
unfoldable pub complete :
    {Response : Type 0}
    → (ℕ → Snapshot → ℕ × ℕ → Answer Response)
    → RoutingRequirements
    → Option ℕ
    → (ℕ → Bool)
    → ℕ
    → Tables
    → ℕ
    → Completed Response × Routing
unfolding snapshots try_candidates
complete attempt q max_output_tokens has_adapter now t task =
    conclude
      (try_candidates attempt q max_output_tokens has_adapter now (snapshots t now task) (begin t))
