-- ===== src/Gateway/Tests.antt =====
-- A call of the gateway by a small router that writes down its requests.
use omniverse_v.Prelude.{
  ℕ, ◌≡◌, refl, true, false, Option, none, some, List, [], ◌∷◌, length, sort_by,
}
use omniverse_v.Context.{Text, EvidenceItem, ok, overflow, estimate_tokens}
use omniverse_v.Context
use omniverse_v.Gateway.{
  ModelRequest, ModelResponse, returned, Serve, Retry, Validator, Router, Call, Formats, Gate,
}
use omniverse_v.Gateway.Service.{
  fits, request_tokens, shrink, validate_structured_response, attempts, call,
}
use omniverse_v.Gateway.Fitting.{IsLongest, shrink-IsLongest}
use omniverse_v.Gateway.Keeping.{IsPolite, call_keeps}

-- The output type is the number after an opening bracket.
abbrev parse_number : Text → Option ℕ
parse_number [] = none
parse_number (c ∷ []) = none
parse_number (c ∷ d ∷ rest) = some d

abbrev formats : Formats ℕ
formats = record {
  context_text = λ payload items. payload;
  request_text = λ request. [];
  repair_prompt = 9 ∷ [];
  parse = parse_number;
  output_json = λ n. n ∷ [];
}

abbrev question : Call
question = record {
  run_id = some 6;
  task = 11;
  prompt_version = 12;
  schema_version = 13;
  role_prompt = 1 ∷ [];
  payload = 2 ∷ [];
  schema = [];
  evidence = [];
  context_window = 40000;
  output_tokens = 4000;
  model_call_id = some 3;
  step_id = some 4;
}

abbrev response : Text → ModelResponse
response text = record {
  text = text;
  usage = [];
  finish_reason = none;
  provider_id = some 1;
  model_id = some 2;
  response_id = none;
}

abbrev write_down : Text → Retry (List ModelRequest)
write_down text request s = (returned (response text), request ∷ s)

abbrev complete_with :
    ModelRequest → Option (Validator (List ModelRequest)) → Serve (List ModelRequest) ModelResponse
complete_with request none s = write_down (5 ∷ []) request s
complete_with request (some v) s = v (response (5 ∷ [])) (write_down (5 ∷ 6 ∷ [])) (request ∷ s)

abbrev router : Router (List ModelRequest)
router = record { takes_validator = true; complete = λ request tokens v. complete_with request v }

abbrev empty : Gate (List ModelRequest)
empty = record {
  world = [];
  manifests = [];
  summaries = [];
  model_calls = [];
  uuids = λ n. n;
  drawn = 0;
}

abbrev AllFit : List ModelRequest → Type 0
AllFit [] = Unit
AllFit (request ∷ rest) = (fits formats question request ≡ true) × AllFit rest

answered : (call formats question router empty).0 ≡ returned 6
unfolding call attempts shrink validate_structured_response request_tokens estimate_tokens
    Context.build Context.allocate Context.select Context.compact sort_by
answered = refl

keeps :
    (request : ModelRequest) (v : Option (Validator (List ModelRequest))) (s : List ModelRequest)
    → fits formats question request ≡ true
    → IsPolite formats question AllFit v
    → AllFit s
    → AllFit (complete_with request v s).1
keeps request none s room polite p = (room, p)
keeps request (some v) s room polite p =
    polite (response (5 ∷ [])) (write_down (5 ∷ 6 ∷ [])) (request ∷ s) (λ r t y q. (y, q)) (room, p)

call_keeps_example : AllFit (call formats question router empty).1.world
call_keeps_example =
    call_keeps formats question AllFit router (λ request tokens v s. keeps request v s) empty tt

abbrev items : List EvidenceItem
items =
    record {
      evidence_id = 1;
      source_id = 8;
      node_id = 9;
      extract = 7 ∷ [];
      priority = 0;
      contradiction = false;
    }
    ∷ []

shrink-IsLongest_example :
    IsLongest formats question
      (1 ∷ [])
      items
      (length items)
      (shrink formats question (length items) (1 ∷ []) items)
shrink-IsLongest_example = shrink-IsLongest formats question (1 ∷ []) items
