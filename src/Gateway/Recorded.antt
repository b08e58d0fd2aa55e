-- ===== src/Gateway/Recorded.antt =====
-- What `call` of the gateway leaves in the database and returns.
use omniverse_v.Prelude.{◌+◌, ◌≡◌, ◌≤◌, ◌⊎◌, none, some, List, [], ◌∷◌, ◌++◌, length}
use omniverse_v.Context.{BuiltContext, EvidenceItem, ok, build}
use omniverse_v.Gateway.{
  ModelRequest, ModelResponse, Outcome, returned, failed, Router, Call, Formats, Gate,
  ContextManifest, StructuredSummaryRevision, repair_request, budget_request, call_rows,
  evidence_ids, sum_tokens,
}
use omniverse_v.Gateway.Service.{
  request_tokens, request_of, messages_of, shrink, validator_for, summary_of,
}

module _ {Output : Type 0} (formats : Formats Output) (c : Call) {S : Type 0}
    (router : Router S) where
  -- The router returned this response to the request, at some time.
  abbrev pub Answers : ModelRequest → ModelResponse → Type 0
  Answers request response =
      (s : S) × ((router.complete request (request_tokens formats c request)
          (validator_for formats c router request) s).0
        ≡ returned response)

  -- The request that the evidence makes.
  abbrev pub first_request : BuiltContext → List EvidenceItem → ModelRequest
  first_request built selected =
      request_of formats c (messages_of formats c built.instructions selected)

  -- A request that was made: the first, or the one that asks for a repair of its response, which is not
  -- of the output type.
  abbrev pub IsAsked : BuiltContext → List EvidenceItem → ModelRequest → Type 0
  IsAsked built selected request =
      (request ≡ first_request built selected)
      ⊎ ((broken : ModelResponse) × Answers (first_request built selected) broken
          × (formats.parse broken.text ≡ none)
          × (request
              ≡ repair_request formats.repair_prompt (first_request built selected) broken.text))

  -- A manifest of the evidence that was sent, for the run, with the size of the request.
  abbrev pub Describes : ContextManifest → List EvidenceItem → ModelRequest → Type 0
  Describes m selected request =
      (m.run_id ≡ c.run_id)
      × (m.evidence_ids ≡ evidence_ids selected)
      × (m.token_estimates.evidence ≡ sum_tokens selected)
      × (m.token_estimates.request_total
          ≡ request_tokens formats c request + c.output_tokens + 1000)

  -- The rows that are added: a manifest, its summary, and the row of the call.
  abbrev pub Adds :
      Gate S → Gate S → List EvidenceItem → ModelRequest → ModelResponse → Output → Type 0
  Adds g h selected request response output =
      (m : ContextManifest) × (r : StructuredSummaryRevision) × (h.manifests
        ≡ g.manifests ++ m ∷ [])
      × Describes m selected request
      × (h.summaries ≡ g.summaries ++ r ∷ [])
      × (r.manifest_id ≡ m.id)
      × (r.summary ≡ summary_of formats c response)
      × (h.model_calls
          ≡ g.model_calls
            ++ call_rows c c.model_call_id c.step_id selected response (formats.output_json output)
                m.id)

  -- Two states with the same rows.
  abbrev pub Same : Gate S → Gate S → Type 0
  Same g h =
      (h.manifests ≡ g.manifests) × (h.summaries ≡ g.summaries) × (h.model_calls ≡ g.model_calls)

  -- How an attempt ends, with this evidence.
  abbrev pub IsRecordedWith :
      BuiltContext → List EvidenceItem → Gate S → Outcome Output × Gate S → Type 0
  IsRecordedWith built selected g (returned output, h) =
      (request : ModelRequest) × (response : ModelResponse) × IsAsked built selected request
      × Answers request response
      × (formats.parse response.text ≡ some output)
      × (request_tokens formats c request + c.output_tokens + 1000 ≤ c.context_window)
      × Adds g h selected request response output
  IsRecordedWith built selected g (failed e, h) = Same g h

  -- How a call ends.
  abbrev pub IsRecorded : Gate S → Outcome Output × Gate S → Type 0
  IsRecorded g (returned output, h) =
      (built : BuiltContext) × (selected : List EvidenceItem) × (build (budget_request c)
          c.role_prompt c.evidence 0
        ≡ ok built)
      × (shrink formats c (length built.selected) built.instructions built.selected ≡ ok selected)
      × IsRecordedWith built selected g (returned output, h)
  IsRecorded g (failed e, h) = Same g h
