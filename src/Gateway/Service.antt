-- ===== src/Gateway/Service.antt =====
-- `call` of StructuredModelGateway, backend/app/v2/gateway.py.
use omniverse_v.Prelude.{
  ℕ, zero, suc, ◌+◌, Bool, Option, none, some, List, [], ◌∷◌, ◌++◌, leb, is_some, length,
  if◌then◌else◌,
}
use omniverse_v.Context.{
  Text, EvidenceItem, BuiltContext, BudgetResult, ok, overflow, other, build, estimate_tokens,
}
use omniverse_v.Gateway.{
  Call, TokenEstimates, Summary, persist_context_revision, Formats, Gate, Message, ModelRequest,
  ModelResponse, Router, Serve, Validator, after, ask, budget_request, call_rows, context_overflow,
  failed, invalid_output, invalid_repair, pop, repair_request, returned, sum_tokens, system,
  unreachable, user,
}

module _ {Output : Type 0} (formats : Formats Output) (c : Call) where
  -- `_serialized_request_tokens`.
  unfoldable pub request_tokens : ModelRequest → ℕ
  request_tokens request = estimate_tokens other (formats.request_text request)

  abbrev pub fits : ModelRequest → Bool
  fits request = leb (request_tokens request + c.output_tokens + 1000) c.context_window

  abbrev pub request_of : List Message → ModelRequest
  request_of messages = record {
    messages = messages;
    max_output_tokens = c.output_tokens;
    structured_schema = c.schema;
  }

  abbrev pub messages_of : Text → List EvidenceItem → List Message
  messages_of instructions selected =
      record { role = system; content = instructions }
      ∷ record { role = user; content = formats.context_text c.payload selected }
      ∷ []

  abbrev pub fits_with : Text → List EvidenceItem → Bool
  fits_with instructions selected = fits (request_of (messages_of instructions selected))

  -- The loop that drops evidence until the request fits. The fuel is the number of items.
  unfoldable pub shrink : ℕ → Text → List EvidenceItem → BudgetResult (List EvidenceItem)
  shrink zero instructions selected =
      if fits_with instructions selected then ok selected else overflow
  shrink (suc n) instructions selected =
      if fits_with instructions selected then ok selected else shrink n instructions (pop selected)

  abbrev pub token_estimates_of : BuiltContext → List EvidenceItem → ModelRequest → TokenEstimates
  token_estimates_of built selected request = record {
    instructions = built.instruction_tokens;
    evidence = sum_tokens selected;
    payload = estimate_tokens other c.payload;
    schema = estimate_tokens other c.schema;
    output = c.output_tokens;
    safety = 1000;
    request_total = request_tokens request + c.output_tokens + 1000;
    effective_limit = c.context_window;
  }

  abbrev pub summary_of : ModelResponse → Summary
  summary_of response = record {
    task = c.task;
    prompt_version = c.prompt_version;
    schema_version = c.schema_version;
    usage = response.usage;
    finish_reason = response.finish_reason;
  }

  module _ {S : Type 0} where
    abbrev pub check_repaired : ModelResponse → Serve S ModelResponse
    check_repaired response s =
        if is_some (formats.parse response.text)
        then (returned response, s)
        else (failed invalid_repair, s)

    -- `validate_structured_response`.
    unfoldable pub validate_structured_response : ModelRequest → Validator S
    validate_structured_response original candidate retry s =
        let repaired = repair_request formats.repair_prompt original candidate.text in
        if is_some (formats.parse candidate.text)
        then (returned candidate, s)
        else if fits repaired
        then after (retry repaired s) check_repaired
        else (failed context_overflow, s)

    abbrev pub validator_for : Router S → ModelRequest → Option (Validator S)
    validator_for router request =
        if router.takes_validator then some (validate_structured_response request) else none

    -- The rows that are added before `call` returns.
    abbrev pub record_call :
        BuiltContext → List EvidenceItem → ModelRequest → ModelResponse → Output → Gate S → Gate S
    record_call built selected request response output g =
        let manifest_id = g.uuids g.drawn in
        let h =
          persist_context_revision c.run_id selected (token_estimates_of built selected request)
            (summary_of response) g in
        record h {
          model_calls =
              h.model_calls
              ++ call_rows c c.model_call_id c.step_id selected response
                  (formats.output_json output) manifest_id;
        }

    -- A reply that is not of the output type: another attempt, if one is left.
    abbrev pub repair :
        (List Message → Serve (Gate S) Output)
        → ℕ
        → ModelRequest
        → ModelResponse
        → Serve (Gate S) Output
    repair again zero request response g = (failed invalid_output, g)
    repair again (suc left) request response g =
        let repaired = repair_request formats.repair_prompt request response.text in
        if fits repaired then again repaired.messages g else (failed context_overflow, g)

    abbrev pub conclude :
        (List Message → Serve (Gate S) Output)
        → ℕ
        → BuiltContext
        → List EvidenceItem
        → ModelRequest
        → ModelResponse
        → Option Output
        → Serve (Gate S) Output
    conclude again left built selected request response (some output) g =
        (returned output, record_call built selected request response output g)
    conclude again left built selected request response none g =
        repair again left request response g

    -- The loop over attempts, with the attempts that are left.
    unfoldable pub attempts :
        Router S → ℕ → BuiltContext → List EvidenceItem → List Message → Serve (Gate S) Output
    attempts router zero built selected messages g = (failed unreachable, g)
    attempts router (suc left) built selected messages g =
        let request = request_of messages in
        if fits request
        then after
            (ask (router.complete request (request_tokens request) (validator_for router request))
              g)
            (λ response.
              conclude (attempts router left built selected) left built selected request response
                (formats.parse response.text))
        else (failed context_overflow, g)

    abbrev pub start :
        Router S → BuiltContext → BudgetResult (List EvidenceItem) → Serve (Gate S) Output
    start router built overflow g = (failed context_overflow, g)
    start router built (ok selected) g =
        attempts router 2 built selected (messages_of built.instructions selected) g

    abbrev pub with_context : Router S → BudgetResult BuiltContext → Serve (Gate S) Output
    with_context router overflow g = (failed context_overflow, g)
    with_context router (ok built) g =
        start router built (shrink (length built.selected) built.instructions built.selected) g

    unfoldable pub call : Router S → Serve (Gate S) Output
    call router g = with_context router (build (budget_request c) c.role_prompt c.evidence 0) g
