-- ===== src/Router/Tries.antt =====
-- How often `complete` of backend/app/v2/routing.py calls an adapter.
use omniverse_v.Prelude.{
  ℕ, suc, ◌+◌, ◌≤◌, ◌≡◌, ◌==◌, refl, Bool, Option, none, some, List, [], ◌∷◌, arith, length, any,
  is_some, Bool-cases, inl, inr,
}
use omniverse_v.Router.{
  ErrorClass, auth, rate_limit, transient, capability, context, input, internal, Tables, Snapshot,
  snapshots,
}
use omniverse_v.Router.Complete.{
  RoutingRequirements, ProviderError, Answer, replied, refused, broken, threw, Routing, Turn,
  responded, go_on, leave, is_usable, try_credential, try_credentials, try_candidate,
  try_candidates, follow, after_error, after_credentials, after_try, close_candidate,
  cool_candidate, was_invalid, complete, begin, conclude,
}

abbrev state_of : {Response : Type 0} → Turn Response → Routing
state_of (responded r s) = s
state_of (go_on s) = s
state_of (leave s) = s
state_of (threw x s) = s

-- The credentials of all candidates, with repetition.
unfoldable pub credential_count : List Snapshot → ℕ
credential_count [] = 0
credential_count (p ∷ ps) = length p.credential_refs + credential_count ps

cool_tries :
    (now : ℕ) (p : Snapshot) (s : Routing) (o : Option ProviderError)
    → (cool_candidate now p s o).tries ≡ s.tries
cool_tries now p s none = refl
cool_tries now p s (some e) = refl

error_tries :
    (Response : Type 0) (now : ℕ) (p : Snapshot) (i : ℕ) (e : ProviderError) (s : Routing)
    (k : ErrorClass)
    → (state_of (after_error {Response = Response} now p i e s k)).tries ≡ s.tries
error_tries Response now p i e s auth = refl
error_tries Response now p i e s rate_limit = refl
error_tries Response now p i e s transient = refl
error_tries Response now p i e s capability = ground arith
error_tries Response now p i e s context = refl
error_tries Response now p i e s input = refl
error_tries Response now p i e s internal = refl

close_tries :
    (Response : Type 0) (now : ℕ) (p : Snapshot) (s : Routing)
    → (state_of (close_candidate {Response = Response} now p s)).tries ≡ s.tries
close_tries Response now p s =
    elim (Bool-cases (is_some (cool_candidate now p s s.candidate_retryable).terminal_error)) [
      | inl ended ↦ rw ended (cool_tries now p s s.candidate_retryable)
      | inr open_still ↦ rw open_still (cool_tries now p s s.candidate_retryable)
    ]

module _ {Response : Type 0} where
  answer_tries :
      (now : ℕ) (p : Snapshot) (i : ℕ) (s : Routing) (a : Answer Response)
      → (state_of (after_try now p i s a)).tries ≡ s.tries
  answer_tries now p i s (replied r) = refl
  answer_tries now p i s (refused e) = error_tries Response now p i e s e.error_class
  answer_tries now p i s (broken x) = refl

  follow_tries :
      (n : ℕ) (t : Turn Response) (rest : Routing → Turn Response)
      → ((s : Routing) → (state_of (rest s)).tries ≤ s.tries + n)
      → (state_of (follow t rest)).tries ≤ (state_of t).tries + n
  follow_tries n (responded r s) rest h = omega arith
  follow_tries n (go_on s) rest h = h s
  follow_tries n (leave s) rest h = omega arith
  follow_tries n (threw x s) rest h = omega arith

  after_tries :
      (now : ℕ) (p : Snapshot) (t : Turn Response)
      → (state_of (after_credentials now p t)).tries ≡ (state_of t).tries
  after_tries now p (responded r s) = refl
  after_tries now p (go_on s) = close_tries Response now p s
  after_tries now p (leave s) = close_tries Response now p s
  after_tries now p (threw x s) = refl

  conclude_tries : (t : Turn Response) → (conclude t).1 ≡ state_of t
  conclude_tries (responded r s) = refl
  conclude_tries (go_on s) = refl
  conclude_tries (leave s) = refl
  conclude_tries (threw x s) = refl

module _ {Response : Type 0} (attempt : ℕ → Snapshot → ℕ × ℕ → Answer Response) (now : ℕ) where
  credential_tries :
      (p : Snapshot) (c : ℕ × ℕ) (s : Routing)
      → (state_of (try_credential attempt now p c s)).tries ≡ suc s.tries
  credential_tries p c s = answer_tries now p c.0 _ (attempt s.tries p c)

  credentials_tries :
      (p : Snapshot) (cs : List (ℕ × ℕ)) (s : Routing)
      → (state_of (try_credentials attempt now p cs s)).tries ≤ s.tries + length cs
  unfolding try_credentials
  credentials_tries p [] s = omega arith
  credentials_tries p (c ∷ cs) s =
      elim (Bool-cases (any (λ i. i == c.0) s.unavailable_credentials)) [
        | inl out ↦ rw out (omega (arith, credentials_tries p cs s))
        | inr in_use ↦ rw in_use (
            omega (
              arith,
              credential_tries p c s,
              follow_tries (length cs) (try_credential attempt now p c s)
                  (try_credentials attempt now p cs) (credentials_tries p cs),
            ))
      ]

  module _ (q : RoutingRequirements) (max_output_tokens : Option ℕ) (has_adapter : ℕ → Bool) where
    candidate_tries :
        (p : Snapshot) (s : Routing)
        → (state_of (try_candidate attempt q max_output_tokens has_adapter now p s)).tries
          ≤ s.tries + length p.credential_refs
    unfolding try_candidate
    candidate_tries p s = elim (Bool-cases (any (was_invalid p) s.unavailable_executions)) [
      | inl out ↦ rw out (omega arith)
      | inr in_use ↦ elim (Bool-cases (is_usable q max_output_tokens has_adapter now p)) [
        | inl usable ↦
            rw (in_use, usable)
              (let start = record s { candidate_retryable = none } in
                omega (
                  arith,
                  after_tries now p (try_credentials attempt now p p.credential_refs start),
                  credentials_tries p p.credential_refs start,
                ))
        | inr skipped ↦ rw (in_use, skipped) (omega arith)
      ]
    ]

    candidates_tries :
        (ps : List Snapshot) (s : Routing)
        → (state_of (try_candidates attempt q max_output_tokens has_adapter now ps s)).tries
          ≤ s.tries + credential_count ps
    unfolding try_candidates credential_count
    candidates_tries [] s = omega arith
    candidates_tries (p ∷ ps) s = omega (
      arith,
      candidate_tries p s,
      follow_tries (credential_count ps)
          (try_candidate attempt q max_output_tokens has_adapter now p s)
          (try_candidates attempt q max_output_tokens has_adapter now ps) (candidates_tries ps),
    )

    -- `complete` makes no more tries than the candidates of the route have eligible credentials,
    -- counted for each candidate.
    pub complete_tries :
        (t : Tables) (task : ℕ)
        → (complete attempt q max_output_tokens has_adapter now t task).1.tries
          ≤ credential_count (snapshots t now task)
    unfolding complete
    complete_tries t task =
        rw
          (conclude_tries (
            try_candidates attempt q max_output_tokens has_adapter now (snapshots t now task)
              (begin t)))
          (omega (arith, candidates_tries (snapshots t now task) (begin t)))
