-- ===== src/Gateway/Keeping.antt =====
-- What the gateway lets the router do: whatever a router keeps true while it serves requests that fit the
-- window stays true, the retries of the validator included.
use omniverse_v.Prelude.{
  ℕ, zero, suc, ◌≡◌, true, Option, none, some, List, is_some, Bool-cases, inl, inr, length,
}
use omniverse_v.Context.{BudgetResult, BuiltContext, EvidenceItem, ok, overflow, build}
use omniverse_v.Gateway.{
  Message, ModelRequest, ModelResponse, Outcome, returned, failed, Serve, after, Retry, Validator,
  Router, Call, Formats, Gate, repair_request, budget_request, ask,
}
use omniverse_v.Gateway.Service.{
  request_tokens, fits, request_of, messages_of, shrink, check_repaired,
  validate_structured_response, validator_for, conclude, attempts, start, with_context, call,
}

module _ {Output : Type 0} (formats : Formats Output) (c : Call) {S : Type 0} (P : S → Type 0) where
  -- A retry, or a router, that keeps `P` on requests that fit.
  abbrev pub Keeps : Retry S → Type 0
  Keeps retry =
      (request : ModelRequest) (s : S) → fits formats c request ≡ true → P s → P (retry request s).1

  -- A validator that keeps `P` if the retry does.
  abbrev pub IsPolite : Option (Validator S) → Type 0
  IsPolite none = Unit
  IsPolite (some v) =
      (candidate : ModelResponse) (retry : Retry S) (s : S)
      → Keeps retry
      → P s
      → P (v candidate retry s).1

  check_repaired-keeps :
      (r : Outcome ModelResponse × S) → P r.1 → P (after r (check_repaired formats c)).1
  check_repaired-keeps (failed e, s) p = p
  check_repaired-keeps (returned response, s) p =
      elim (Bool-cases (is_some (formats.parse response.text))) [ inl y ↦ rw y p | inr n ↦ rw n p ]

  validate-IsPolite :
      (original : ModelRequest) → IsPolite (some (validate_structured_response formats c original))
  unfolding validate_structured_response
  validate-IsPolite original candidate retry s keeps p =
      elim (Bool-cases (is_some (formats.parse candidate.text))) [
        | inl y ↦ rw y p
        | inr n ↦
            let repaired = repair_request formats.repair_prompt original candidate.text in
            elim (Bool-cases (fits formats c repaired)) [
              | inl room ↦
                  rw (n, room) (check_repaired-keeps (retry repaired s) (keeps repaired s room p))
              | inr large ↦ rw (n, large) p
            ]
      ]

  after-keeps :
      (o : Outcome ModelResponse) (g : Gate S) (f : ModelResponse → Serve (Gate S) Output)
      → P g.world
      → ((response : ModelResponse) (g : Gate S) → P g.world → P (f response g).1.world)
      → P (after (o, g) f).1.world
  after-keeps (returned response) g f p h = h response g p
  after-keeps (failed e) g f p h = p

  conclude-keeps :
      (again : List Message → Serve (Gate S) Output) (left : ℕ) (built : BuiltContext)
      (selected : List EvidenceItem) (request : ModelRequest) (response : ModelResponse)
      (o : Option Output) (g : Gate S)
      → ((messages : List Message) (g : Gate S) → P g.world → P (again messages g).1.world)
      → P g.world
      → P (conclude formats c again left built selected request response o g).1.world
  conclude-keeps again left built selected request response (some output) g h p = p
  conclude-keeps again zero built selected request response none g h p = p
  conclude-keeps again (suc left) built selected request response none g h p =
      let repaired = repair_request formats.repair_prompt request response.text in
      elim (Bool-cases (fits formats c repaired)) [
        | inl room ↦ rw room (h repaired.messages g p)
        | inr large ↦ rw large p
      ]

  module _ (router : Router S) where
    validator_for-IsPolite :
        (request : ModelRequest) → IsPolite (validator_for formats c router request)
    validator_for-IsPolite request = elim (Bool-cases router.takes_validator) [
      | inl y ↦ rw y (validate-IsPolite request)
      | inr n ↦ rw n tt
    ]

    -- A router that keeps `P`.
    abbrev pub RouterKeeps : Type 0
    RouterKeeps =
        (request : ModelRequest) (tokens : ℕ) (v : Option (Validator S)) (s : S)
        → fits formats c request ≡ true
        → IsPolite v
        → P s
        → P (router.complete request tokens v s).1

    attempts-keeps :
        RouterKeeps
        → (left : ℕ) (built : BuiltContext) (selected : List EvidenceItem) (messages : List Message)
          (g : Gate S)
        → P g.world
        → P (attempts formats c router left built selected messages g).1.world
    unfolding attempts
    attempts-keeps keeps zero built selected messages g p = p
    attempts-keeps keeps (suc left) built selected messages g p =
        let request = request_of formats c messages in
        elim (Bool-cases (fits formats c request)) [
          | inr large ↦ rw large p
          | inl room ↦
              let v = validator_for formats c router request in
              let once =
                keeps request (request_tokens formats c request) v g.world room
                  (validator_for-IsPolite request) p in
              let asked : Gate S =
                (ask (router.complete request (request_tokens formats c request) v) g).1 in
              let following =
                after-keeps (router.complete request (request_tokens formats c request) v g.world).0
                  asked _ once
                  (λ response h q.
                    conclude-keeps (attempts formats c router left built selected) left built
                      selected request response (formats.parse response.text) h
                      (attempts-keeps keeps left built selected) q) in
              rw room following
        ]

    start-keeps :
        RouterKeeps
        → (built : BuiltContext) (kept : BudgetResult (List EvidenceItem)) (g : Gate S) → P g.world
        → P (start formats c router built kept g).1.world
    start-keeps keeps built (ok selected) g p =
        attempts-keeps keeps 2 built selected (messages_of formats c built.instructions selected) g
          p
    start-keeps keeps built overflow g p = p

    with_context-keeps :
        RouterKeeps
        → (context : BudgetResult BuiltContext) (g : Gate S) → P g.world
        → P (with_context formats c router context g).1.world
    with_context-keeps keeps (ok built) g p =
        start-keeps keeps built
          (shrink formats c (length built.selected) built.instructions built.selected) g p
    with_context-keeps keeps overflow g p = p

    -- `call` keeps whatever the router keeps when its requests fit the context window and when the
    -- validator that it gets asks for a retry only with a request that fits.
    pub call_keeps :
        ((request : ModelRequest) (tokens : ℕ) (v : Option (Validator S)) (s : S)
          → fits formats c request ≡ true
          → IsPolite v
          → P s
          → P (router.complete request tokens v s).1)
        → (g : Gate S) → P g.world
        → P (call formats c router g).1.world
    unfolding call
    call_keeps keeps g p =
        with_context-keeps keeps (build (budget_request c) c.role_prompt c.evidence 0) g p
