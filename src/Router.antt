-- ===== src/Router.antt =====
-- ProviderRouter of backend/app/v2/routing.py: the rows that it reads (backend/app/v2/models.py),
-- the credentials that are eligible, and the candidates of a task in the order in which
-- `complete` tries them. Router/Complete.antt models the tries. Identifiers are numbers in their
-- order, and instants are numbers of one clock, in seconds.
pub mod Complete
pub mod Replies
pub mod Tries
mod Tests
use omniverse_v.Prelude.{
  ℕ, ◌+◌, ◌-◌, ◌*◌, Bool, true, false, not, ◌&&◌, ◌||◌, Option, none, some, List, [], ◌∷◌, ◌++◌,
  ◌==◌, leb, ltb, find, filter, any, sort_by, map, if◌then◌else◌,
}

pub data ErrorClass : Type 0 where
  auth rate_limit transient capability context input internal : ErrorClass

pub data ProviderKind : Type 0 where
  openai gemini openai_compatible openrouter other_kind : ProviderKind

pub record Provider : Type 0 where
  pub id : ℕ
  pub kind : ProviderKind
  pub active : Bool

pub record ProviderModel : Type 0 where
  pub id : ℕ
  pub provider_id : ℕ
  pub model_name : ℕ
  pub context_window : Option ℕ
  pub output_limit : Option ℕ
  pub supports_tools : Bool
  pub supports_structured : Bool
  pub supports_text : Bool
  pub active : Bool

pub record CredentialRef : Type 0 where
  pub id : ℕ
  pub provider_id : ℕ
  pub opaque_ref : ℕ
  pub weight : ℕ
  pub active : Bool

pub record Route : Type 0 where
  pub id : ℕ
  pub task : ℕ
  pub active : Bool

pub record RouteCandidate : Type 0 where
  pub id : ℕ
  pub route_id : ℕ
  pub provider_id : Option ℕ
  pub model_id : Option ℕ
  pub position : ℕ

pub record CandidateHealth : Type 0 where
  pub candidate_id : ℕ
  pub cooldown_until : Option ℕ
  pub failure_count : ℕ
  pub last_error_class : Option ErrorClass

pub record CredentialHealth : Type 0 where
  pub credential_id : ℕ
  pub cooldown_until : Option ℕ
  pub disabled : Bool
  pub selection_count : ℕ
  pub failure_count : ℕ
  pub last_error_class : Option ErrorClass

pub record Tables : Type 0 where
  pub routes : List Route
  pub candidates : List RouteCandidate
  pub models : List ProviderModel
  pub providers : List Provider
  pub credentials : List CredentialRef
  pub credential_healths : List CredentialHealth
  pub candidate_healths : List CandidateHealth

-- `CredentialHealth(credential_id=…)`, with the defaults of its columns.
abbrev pub new_health : ℕ → CredentialHealth
new_health i = record {
  credential_id = i;
  cooldown_until = none;
  disabled = false;
  selection_count = 0;
  failure_count = 0;
  last_error_class = none;
}

abbrev pub is_health_of : ℕ → CredentialHealth → Bool
is_health_of i h = h.credential_id == i

abbrev pub or_else {ℓ} : {A : Type ℓ} → Option A → A → A
or_else none a = a
or_else (some b) a = b

-- `credential_health`: a row that is missing is made.
abbrev pub credential_health : ℕ → List CredentialHealth → CredentialHealth
credential_health i healths = or_else (find (is_health_of i) healths) (new_health i)

-- `_active`.
abbrev pub is_over : Option ℕ → ℕ → Bool
is_over none now = true
is_over (some until) now = leb until now

-- `not health.disabled and self._active(health.cooldown_until, now)`.
abbrev pub is_eligible : CredentialHealth → ℕ → Bool
is_eligible h now = not h.disabled && is_over h.cooldown_until now

-- The key `(selection_count / weight, id)`: the quotients are compared by their cross products.
abbrev pub credential_order : List CredentialHealth → CredentialRef → CredentialRef → Bool
credential_order healths a b =
    let left = (credential_health a.id healths).selection_count * b.weight in
    let right = (credential_health b.id healths).selection_count * a.weight in
    ltb left right || (left == right && leb a.id b.id)

-- `_eligible_credentials`. The rows of health that it makes are not committed.
abbrev pub eligible_credentials : Tables → ℕ → ℕ → List CredentialRef
eligible_credentials t provider_id now = sort_by (credential_order t.credential_healths) (
    filter
      (λ (c : CredentialRef).
        c.provider_id == provider_id
        && (c.active && is_eligible (credential_health c.id t.credential_healths) now))
      t.credentials)

-- A task is a number, and this is DEFAULT.
abbrev pub default_task : ℕ
default_task = 0

abbrev pub serves : ℕ → Route → Bool
serves task r = r.task == task && r.active

-- For DEFAULT itself the second query is the first one again.
abbrev pub route_for : Tables → ℕ → Option Route
route_for t task = elim (find (serves task) t.routes) [
  | some r ↦ some r
  | none ↦ find (serves default_task) t.routes
]

abbrev pub candidate_order : RouteCandidate → RouteCandidate → Bool
candidate_order a b = ltb a.position b.position || (a.position == b.position && leb a.id b.id)

abbrev pub candidates_of : Tables → Option Route → List RouteCandidate
candidates_of t none = []
candidates_of t (some r) =
    sort_by candidate_order (filter (λ (c : RouteCandidate). c.route_id == r.id) t.candidates)

abbrev pub same_id : Option ℕ → ℕ → Bool
same_id none i = false
same_id (some j) i = i == j

-- The model that a candidate names, or the active models of its provider.
abbrev pub models_for : Tables → RouteCandidate → Option ℕ → List ProviderModel
models_for t c (some model_id) = filter (λ (m : ProviderModel). m.id == model_id) t.models
models_for t c none =
    sort_by (λ a b. leb a.id b.id)
      (filter (λ (m : ProviderModel). same_id c.provider_id m.provider_id && m.active) t.models)

pub record Snapshot : Type 0 where
  pub candidate_id : ℕ
  pub provider_model_id : ℕ
  pub model_name : ℕ
  pub context_window : Option ℕ
  pub output_limit : Option ℕ
  pub supports_tools : Bool
  pub supports_structured : Bool
  pub supports_text : Bool
  pub provider_id : ℕ
  pub provider_kind : ProviderKind
  pub candidate_cooldown : Option ℕ
  pub credential_refs : List (ℕ × ℕ)

abbrev pub cooldown_of : Option CandidateHealth → Option ℕ
cooldown_of none = none
cooldown_of (some h) = h.cooldown_until

abbrev pub is_candidate : ℕ → CandidateHealth → Bool
is_candidate i h = h.candidate_id == i

abbrev pub snapshot : Tables → ℕ → RouteCandidate → ProviderModel → Provider → Snapshot
snapshot t now c m p = record {
  candidate_id = c.id;
  provider_model_id = m.id;
  model_name = m.model_name;
  context_window = m.context_window;
  output_limit = m.output_limit;
  supports_tools = m.supports_tools;
  supports_structured = m.supports_structured;
  supports_text = m.supports_text;
  provider_id = p.id;
  provider_kind = p.kind;
  candidate_cooldown = cooldown_of (find (is_candidate c.id) t.candidate_healths);
  credential_refs =
      map (λ (r : CredentialRef). (r.id, r.opaque_ref)) (eligible_credentials t p.id now);
}

-- The pairs of a candidate and a model, in the order of the two loops.
unfoldable pub pairs : Tables → List RouteCandidate → List (RouteCandidate × ProviderModel)
pairs t [] = []
pairs t (c ∷ cs) = map (λ m. (c, m)) (models_for t c c.model_id) ++ pairs t cs

abbrev pub is_provider : ℕ → Provider → Bool
is_provider i p = p.id == i && p.active

-- The active provider of a model that is active and not seen yet.
abbrev pub provider_for : Tables → List ℕ → ProviderModel → Option Provider
provider_for t seen m =
    if m.active && not (any (λ i. i == m.id) seen)
    then find (is_provider m.provider_id) t.providers
    else none

unfoldable pub snapshots_from :
    Tables → ℕ → List ℕ → List (RouteCandidate × ProviderModel) → List Snapshot
snapshots_from t now seen [] = []
snapshots_from t now seen ((c, m) ∷ rest) = elim (provider_for t seen m) [
  | none ↦ snapshots_from t now seen rest
  | some p ↦ snapshot t now c m p ∷ snapshots_from t now (m.id ∷ seen) rest
]

unfoldable pub snapshots : Tables → ℕ → ℕ → List Snapshot
unfolding pairs snapshots_from
snapshots t now task = snapshots_from t now [] (pairs t (candidates_of t (route_for t task)))
