-- ===== src/Gateway.antt =====
-- StructuredModelGateway of backend/app/v2/gateway.py: `call` fits the evidence into the context window,
-- asks the router for a reply, and repairs a reply that is not of the output type once. The JSON text
-- of values, the parser of the output type and the router are parameters; `S` is what the router
-- reads and changes. Log entries are left out.
pub mod Service
pub mod Fitting
pub mod Keeping
pub mod Recorded
mod Tests
use omniverse_v.Prelude.{
  ℕ, zero, suc, ◌+◌, Bool, true, false, Option, none, some, List, [], ◌∷◌, ◌++◌, leb, is_some, ◌==◌,
  length, map, if◌then◌else◌,
}
use omniverse_v.Context.{
  Text, EvidenceItem, BudgetRequest, BuiltContext, BudgetResult, ok, overflow, other, build,
  estimate_tokens,
}

pub data Role : Type 0 where
  system user assistant : Role

pub record Message : Type 0 where
  pub role : Role
  pub content : Text

pub record ModelRequest : Type 0 where
  pub messages : List Message
  pub max_output_tokens : ℕ
  pub structured_schema : Text

pub record ModelResponse : Type 0 where
  pub text : Text
  pub usage : Text
  pub finish_reason : Option ℕ
  pub provider_id : Option ℕ
  pub model_id : Option ℕ
  pub response_id : Option ℕ

-- ContextOverflowError, StructuredOutputError, StructuredOutputValidationError, an assertion and
-- the errors that the router raises.
pub data Failure : Type 0 where
  context_overflow invalid_output invalid_repair unreachable : Failure
  provider_error : ℕ → Failure

pub data Outcome (A : Type 0) : Type 0 where
  returned : A → Outcome A
  failed : Failure → Outcome A

abbrev pub Serve : Type 0 → Type 0 → Type 0
Serve S A = S → Outcome A × S

abbrev pub after : {S A B : Type 0} → Outcome A × S → (A → Serve S B) → Outcome B × S
after (returned a, s) f = f a s
after (failed e, s) f = (failed e, s)

abbrev pub Retry : Type 0 → Type 0
Retry S = ModelRequest → Serve S ModelResponse

abbrev pub Validator : Type 0 → Type 0
Validator S = ModelResponse → Retry S → Serve S ModelResponse

-- `complete` takes the request, its input tokens and the validator, if it has a parameter for one.
pub record Router (S : Type 0) : Type 0 where
  pub takes_validator : Bool
  pub complete : ModelRequest → ℕ → Option (Validator S) → Serve S ModelResponse

-- The arguments of `call`, with the JSON text of the schema and the payload, the version that the role
-- prompt begins with, and the name of the output type.
pub record Call : Type 0 where
  pub run_id : Option ℕ
  pub task : ℕ
  pub prompt_version : ℕ
  pub schema_version : ℕ
  pub role_prompt : Text
  pub payload : Text
  pub schema : Text
  pub evidence : List EvidenceItem
  pub context_window : ℕ
  pub output_tokens : ℕ
  pub model_call_id : Option ℕ
  pub step_id : Option ℕ

-- JSON texts, and `model_validate_json` and `model_dump` of the output type.
pub record Formats (Output : Type 0) : Type 0 where
  pub context_text : Text → List EvidenceItem → Text
  pub request_text : ModelRequest → Text
  pub repair_prompt : Text
  pub parse : Text → Option Output
  pub output_json : Output → Text

-- The dictionary `token_estimates` of a manifest, in which the gateway replaces the allocator's entry
-- for the evidence.
pub record TokenEstimates : Type 0 where
  pub instructions : ℕ
  pub evidence : ℕ
  pub payload : ℕ
  pub schema : ℕ
  pub output : ℕ
  pub safety : ℕ
  pub request_total : ℕ
  pub effective_limit : ℕ

pub record ContextManifest : Type 0 where
  pub id : ℕ
  pub run_id : Option ℕ
  pub evidence_ids : List ℕ
  pub source_ids : List ℕ
  pub node_ids : List ℕ
  pub token_estimates : TokenEstimates

-- The summary of a call. None of its keys is one that `_safe_summary` drops; the usage is JSON text,
-- whose keys are not either.
pub record Summary : Type 0 where
  pub task : ℕ
  pub prompt_version : ℕ
  pub schema_version : ℕ
  pub usage : Text
  pub finish_reason : Option ℕ

pub record StructuredSummaryRevision : Type 0 where
  pub id : ℕ
  pub manifest_id : ℕ
  pub revision_number : ℕ
  pub summary : Summary

pub record ModelCall : Type 0 where
  pub id : ℕ
  pub step_id : ℕ
  pub task : ℕ
  pub prompt_version : ℕ
  pub schema_version : ℕ
  pub selected_evidence_ids : List ℕ
  pub usage : Text
  pub provider_id : Option ℕ
  pub model_id : Option ℕ
  pub response_id : Option ℕ
  pub response : Text
  pub manifest_id : ℕ

-- What the router changes, the rows that the gateway adds, and the values that `uuid4` will return.
pub record Gate (S : Type 0) : Type 0 where
  pub world : S
  pub manifests : List ContextManifest
  pub summaries : List StructuredSummaryRevision
  pub model_calls : List ModelCall
  pub uuids : ℕ → ℕ
  pub drawn : ℕ

-- `list.pop`, of a list that may be empty.
unfoldable pub pop : {A : Type 0} → List A → List A
pop [] = []
pop (x ∷ []) = []
pop (x ∷ y ∷ rest) = x ∷ pop (y ∷ rest)

unfoldable pub sum_tokens : List EvidenceItem → ℕ
sum_tokens [] = 0
sum_tokens (item ∷ items) = estimate_tokens other item.extract + sum_tokens items

abbrev pub evidence_ids : List EvidenceItem → List ℕ
evidence_ids items = map (λ (item : EvidenceItem). item.evidence_id) items

-- The request that asks for a repair.
abbrev pub repair_request : Text → ModelRequest → Text → ModelRequest
repair_request prompt request text = record request {
  messages =
      request.messages
      ++ record { role = assistant; content = text }
        ∷ record { role = user; content = prompt }
        ∷ [];
}

abbrev pub budget_request : Call → BudgetRequest
budget_request c = record {
  provider_kind = other;
  context_window = c.context_window;
  output_tokens = c.output_tokens;
  configured_cap = some c.context_window;
  tool_schema = some c.schema;
  safety_tokens = 1000;
}

-- `sorted` of a set.
unfoldable pub insert_once : ℕ → List ℕ → List ℕ
insert_once i [] = i ∷ []
insert_once i (j ∷ js) =
    let rest = insert_once i js in
    if i == j then j ∷ js else if leb i j then i ∷ j ∷ js else j ∷ rest

unfoldable pub sorted_set : List ℕ → List ℕ
sorted_set [] = []
sorted_set (i ∷ is) = insert_once i (sorted_set is)

-- `persist_context_revision` of backend/app/v2/context.py.
abbrev pub persist_context_revision :
    {S : Type 0} → Option ℕ → List EvidenceItem → TokenEstimates → Summary → Gate S → Gate S
persist_context_revision run_id selected token_estimates summary g =
    let manifest_id = g.uuids g.drawn in
    record g {
      manifests =
          g.manifests
          ++ record {
            id = manifest_id;
            run_id = run_id;
            evidence_ids = evidence_ids selected;
            source_ids = sorted_set (map (λ (item : EvidenceItem). item.source_id) selected);
            node_ids = sorted_set (map (λ (item : EvidenceItem). item.node_id) selected);
            token_estimates = token_estimates;
          }
            ∷ [];
      summaries =
          g.summaries
          ++ record {
            id = g.uuids (suc g.drawn);
            manifest_id = manifest_id;
            revision_number = 1;
            summary = summary;
          }
            ∷ [];
      drawn = suc (suc g.drawn);
    }

-- The row of the call, which is added if the caller gave both identifiers.
abbrev pub call_rows :
    Call → Option ℕ → Option ℕ → List EvidenceItem → ModelResponse → Text → ℕ → List ModelCall
call_rows c (some call) (some step) selected response output manifest_id =
    record {
      id = call;
      step_id = step;
      task = c.task;
      prompt_version = c.prompt_version;
      schema_version = c.schema_version;
      selected_evidence_ids = evidence_ids selected;
      usage = response.usage;
      provider_id = response.provider_id;
      model_id = response.model_id;
      response_id = response.response_id;
      response = output;
      manifest_id = manifest_id;
    }
    ∷ []
call_rows c none step selected response output manifest_id = []
call_rows c (some call) none selected response output manifest_id = []

abbrev pub ask : {S A : Type 0} → Serve S A → Gate S → Outcome A × Gate S
ask f g = let (r, s) = f g.world in (r, record g { world = s })
