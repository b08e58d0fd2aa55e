-- ===== src/Router/Replies.antt =====
-- Where the response that `complete` of backend/app/v2/routing.py returns comes from.
use mathlib.Core.List.{Memᴰ}
use mathlib.Core.Path.{subst}
use omniverse_v.Prelude.{
  ℕ, ◌≡◌, ◌≤◌, ◌-◌, ◌==◌, ◌⊎◌, ◌&&◌, ◌||◌, not, refl, Bool, true, false, none, some, Option, List,
  [], ◌∷◌, arith, any, Bool-cases, inl, inr,
}
use omniverse_v.Router.{
  ProviderKind, openai, gemini, openai_compatible, openrouter, other_kind, is_over, ErrorClass,
  auth, rate_limit, transient, capability, context, input, internal, Tables, Snapshot, snapshots,
}
use omniverse_v.Router.Complete.{
  effective_input_window, fits_window, output_for, RoutingRequirements, ProviderError, Answer,
  replied, refused, broken, threw, Routing, Turn, responded, go_on, leave, is_usable,
  try_credentials, try_candidate, try_candidates, follow, after_error, after_credentials, after_try,
  close_candidate, was_invalid, returned, complete, begin, conclude,
}

-- A turn that responds does so with a response that satisfies the predicate.
abbrev RepliesFrom : {Response : Type 0} → (Response → Type 0) → Turn Response → Type 0
RepliesFrom P (responded r s) = P r
RepliesFrom P (go_on s) = Unit
RepliesFrom P (leave s) = Unit
RepliesFrom P (threw x s) = Unit

-- The reply of a try of a candidate with one of these credentials.
abbrev pub IsReply :
    {Response : Type 0}
    → (ℕ → Snapshot → ℕ × ℕ → Answer Response)
    → Snapshot
    → List (ℕ × ℕ)
    → Response
    → Type 0
IsReply attempt p cs r = (n : ℕ) × (c : ℕ × ℕ) × Memᴰ c cs × (attempt n p c ≡ replied r)

module _ {Response : Type 0} (P : Response → Type 0) where
  error_replies :
      (now : ℕ) (p : Snapshot) (i : ℕ) (e : ProviderError) (s : Routing) (k : ErrorClass)
      → RepliesFrom P (after_error now p i e s k)
  error_replies now p i e s auth = tt
  error_replies now p i e s rate_limit = tt
  error_replies now p i e s transient = tt
  error_replies now p i e s capability = tt
  error_replies now p i e s context = tt
  error_replies now p i e s input = tt
  error_replies now p i e s internal = tt

  try_replies :
      (now : ℕ) (p : Snapshot) (i : ℕ) (s : Routing) (a : Answer Response)
      → ((r : Response) → a ≡ replied r → P r)
      → RepliesFrom P (after_try now p i s a)
  try_replies now p i s (replied r) h = h r refl
  try_replies now p i s (refused e) h = error_replies now p i e s e.error_class
  try_replies now p i s (broken x) h = tt

  follow_replies :
      (t : Turn Response) (rest : Routing → Turn Response)
      → RepliesFrom P t
      → ((s : Routing) → RepliesFrom P (rest s))
      → RepliesFrom P (follow t rest)
  follow_replies (responded r s) rest h k = h
  follow_replies (go_on s) rest h k = k s
  follow_replies (leave s) rest h k = tt
  follow_replies (threw x s) rest h k = tt

  close_replies : (now : ℕ) (p : Snapshot) (s : Routing) → RepliesFrom P (close_candidate now p s)
  close_replies now p s = ground arith

  after_replies :
      (now : ℕ) (p : Snapshot) (t : Turn Response)
      → RepliesFrom P t
      → RepliesFrom P (after_credentials now p t)
  after_replies now p (responded r s) h = h
  after_replies now p (go_on s) h = close_replies now p s
  after_replies now p (leave s) h = close_replies now p s
  after_replies now p (threw x s) h = tt

  conclude_replies :
      (t : Turn Response) (r : Response) (s : Routing)
      → RepliesFrom P t
      → conclude t ≡ (returned r, s)
      → P r
  conclude_replies (responded r' s') r s h e = let same : r' ≡ r = cc in subst P same h
  conclude_replies (go_on s') r s h e = cc
  conclude_replies (leave s') r s h e = cc
  conclude_replies (threw x s') r s h e = cc

-- Replies of the credentials in a list are replies of a longer one.
credentials-replies :
    {Response : Type 0} (attempt : ℕ → Snapshot → ℕ × ℕ → Answer Response) (now : ℕ) (p : Snapshot)
    (P : Response → Type 0) (cs : List (ℕ × ℕ)) (s : Routing)
    → ((r : Response) → IsReply attempt p cs r → P r)
    → RepliesFrom P (try_credentials attempt now p cs s)
unfolding try_credentials
credentials-replies attempt now p P [] s h = tt
credentials-replies attempt now p P (c ∷ cs) s h =
    follow_replies P _ _
      (elim (Bool-cases (any (λ i. i == c.0) s.unavailable_credentials)) [
        | inl out ↦ rw out tt
        | inr in_use ↦ rw in_use (
            try_replies P now p c.0 _ (attempt s.tries p c)
              (λ r e. h r (s.tries, c, Memᴰ.head refl, e)))
      ])
      (λ t. credentials-replies attempt now p P cs t (λ r (n, d, m, e). h r (n, d, Memᴰ.tail m, e)))

met : (a b : Bool) → (not a || b) ≡ true → (a ≡ false) ⊎ (b ≡ true)
met true b h = inr h
met false b h = inl refl

both : (a b : Bool) → (a && b) ≡ true → (a ≡ true) × (b ≡ true)
both true b h = (refl, h)
both false b h = cc

six_guards :
    (a b c d e f : Bool)
    → (a && (b && (c && (d && (e && f))))) ≡ true
    → (a ≡ true) × (b ≡ true) × (c ≡ true) × (d ≡ true) × (e ≡ true) × (f ≡ true)
six_guards a b c d e f h =
    let h1 = both a _ h in
    let h2 = both b _ h1.1 in
    let h3 = both c _ h2.1 in
    let h4 = both d _ h3.1 in let h5 = both e f h4.1 in (h1.0, h2.0, h3.0, h4.0, h5.0, h5.1)

module _ {Response : Type 0} (attempt : ℕ → Snapshot → ℕ × ℕ → Answer Response)
    (q : RoutingRequirements) (max_output_tokens : Option ℕ) (has_adapter : ℕ → Bool)
    (now : ℕ) where
  -- The candidate supports what is required.
  abbrev pub Supports : Snapshot → Type 0
  Supports p =
      ((q.tools ≡ false) ⊎ (p.supports_tools ≡ true))
      × ((q.structured ≡ false) ⊎ (p.supports_structured ≡ true))
      × ((q.text ≡ false) ⊎ (p.supports_text ≡ true))

  -- The model's context window is known, and the input fits it, beside the output for a provider of a
  -- kind that counts the output.
  abbrev pub HasRoom : Snapshot → Type 0
  HasRoom p =
      (window : ℕ) × (p.context_window ≡ some window)
      × (q.input_tokens ≤ window)
      × ((p.provider_kind ≡ other_kind)
          ⊎ (q.input_tokens ≤ window - output_for q max_output_tokens p))

  -- The candidate's cooldown, if it has one, is over.
  abbrev pub IsCool : Snapshot → Type 0
  IsCool p =
      (p.candidate_cooldown ≡ none)
      ⊎ ((until : ℕ) × (p.candidate_cooldown ≡ some until) × (until ≤ now))

  -- What the guards before a candidate's credentials ask for.
  abbrev pub MayServe : Snapshot → Type 0
  MayServe p = Supports p × HasRoom p × IsCool p × (has_adapter p.provider_id ≡ true)

  room_of :
      (p : Snapshot) (window : Option ℕ) (kind : ProviderKind)
      → p.context_window ≡ window
      → p.provider_kind ≡ kind
      → fits_window q max_output_tokens p window ≡ true
      → HasRoom p
  unfolding effective_input_window
  room_of p none kind e k h = cc
  room_of p (some window) other_kind e k h = (window, e, ground arith, inl k)
  room_of p (some window) openai e k h = (window, e, ground arith, inr (ground arith))
  room_of p (some window) gemini e k h = (window, e, ground arith, inr (ground arith))
  room_of p (some window) openai_compatible e k h = (window, e, ground arith, inr (ground arith))
  room_of p (some window) openrouter e k h = (window, e, ground arith, inr (ground arith))

  is_over-IsCool :
      (p : Snapshot) (cooldown : Option ℕ)
      → p.candidate_cooldown ≡ cooldown
      → is_over cooldown now ≡ true
      → IsCool p
  is_over-IsCool p none e h = inl e
  is_over-IsCool p (some until) e h = inr (until, e, ground arith)

  is_usable-MayServe :
      (p : Snapshot) → is_usable q max_output_tokens has_adapter now p ≡ true → MayServe p
  unfolding is_usable
  is_usable-MayServe p h =
      let (tools, structured, text, room, cool, adapter) = six_guards _ _ _ _ _ _ h in
      (
        (met _ _ tools, met _ _ structured, met _ _ text),
        room_of p p.context_window p.provider_kind refl refl room,
        is_over-IsCool p p.candidate_cooldown refl cool,
        adapter,
      )

  -- A reply among these of a candidate that the call may use.
  abbrev pub IsUsableReply : List Snapshot → Response → Type 0
  IsUsableReply ps r =
      (p : Snapshot) × Memᴰ p ps × MayServe p × IsReply attempt p p.credential_refs r

  candidate-replies :
      (P : Response → Type 0) (p : Snapshot) (s : Routing)
      → (MayServe p → (r : Response) → IsReply attempt p p.credential_refs r → P r)
      → RepliesFrom P (try_candidate attempt q max_output_tokens has_adapter now p s)
  unfolding try_candidate
  candidate-replies P p s h = elim (Bool-cases (any (was_invalid p) s.unavailable_executions)) [
    | inl out ↦ rw out tt
    | inr in_use ↦ elim (Bool-cases (is_usable q max_output_tokens has_adapter now p)) [
      | inl usable ↦
          rw (in_use, usable)
            (after_replies P now p _ (
              credentials-replies attempt now p P p.credential_refs _
                (h (is_usable-MayServe p usable))))
      | inr skipped ↦ rw (in_use, skipped) tt
    ]
  ]

  candidates-replies :
      (P : Response → Type 0) (ps : List Snapshot) (s : Routing)
      → ((r : Response) → IsUsableReply ps r → P r)
      → RepliesFrom P (try_candidates attempt q max_output_tokens has_adapter now ps s)
  unfolding try_candidates
  candidates-replies P [] s h = tt
  candidates-replies P (p ∷ ps) s h =
      follow_replies P _ _
        (candidate-replies P p s (λ usable r reply. h r (p, Memᴰ.head refl, usable, reply)))
        (λ t.
          candidates-replies P ps t
            (λ r (p', m, usable, reply). h r (p', Memᴰ.tail m, usable, reply)))

  -- A response that `complete` returns is the reply of a try with a credential that the route has
  -- for one of its candidates. That candidate supports the tools, the structured output and the text
  -- that the call requires; its context window is known, and the input fits it, beside the output for
  -- a provider of a kind that counts the output; its cooldown, if it has one, is over; and its
  -- provider has an adapter.
  pub complete-IsUsableReply :
      (t : Tables) (task : ℕ) (r : Response) (s : Routing)
      → complete attempt q max_output_tokens has_adapter now t task ≡ (returned r, s)
      → IsUsableReply (snapshots t now task) r
  unfolding complete
  complete-IsUsableReply t task r s e =
      conclude_replies (IsUsableReply (snapshots t now task)) _ r s
        (candidates-replies (IsUsableReply (snapshots t now task)) (snapshots t now task) (begin t)
          (λ r h. h))
        e
