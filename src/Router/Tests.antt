-- ===== src/Router/Tests.antt =====
-- A route with two credentials: the first is rate-limited and the second replies.
use omniverse_v.Prelude.{
  ℕ, zero, suc, ◌≤◌, refl, true, false, none, some, [], ◌∷◌, find, filter, any, sort_by, insert_by,
  modify_first,
}
use omniverse_v.Router.{ProviderModel, Tables, Snapshot, openai, rate_limit, snapshots}
use omniverse_v.Router.Complete.{
  RoutingRequirements, Answer, replied, refused, Routing, is_usable, complete, try_candidates,
}
use omniverse_v.Router.Replies.{IsUsableReply, complete-IsUsableReply}
use omniverse_v.Router.Tries.{credential_count, complete_tries}

abbrev model : ProviderModel
model = record {
  id = 20;
  provider_id = 10;
  model_name = 7;
  context_window = some 8000;
  output_limit = some 1000;
  supports_tools = false;
  supports_structured = true;
  supports_text = true;
  active = true;
}

abbrev tables : Tables
tables = record {
  routes = record { id = 1; task = 5; active = true } ∷ [];
  candidates =
      record { id = 2; route_id = 1; provider_id = none; model_id = some 20; position = 0 } ∷ [];
  models = model ∷ [];
  providers = record { id = 10; kind = openai; active = true } ∷ [];
  credentials =
      record { id = 31; provider_id = 10; opaque_ref = 41; weight = 1; active = true }
      ∷ record { id = 32; provider_id = 10; opaque_ref = 42; weight = 1; active = true }
      ∷ [];
  credential_healths = [];
  candidate_healths = [];
}

abbrev answers : ℕ → Snapshot → ℕ × ℕ → Answer ℕ
answers zero p c =
    refused (record { error_class = rate_limit; retry_after = none; structured = false })
answers (suc n) p c = replied 99

abbrev needs : RoutingRequirements
needs = record {
  tools = false;
  structured = true;
  text = true;
  input_tokens = 500;
  output_tokens = 0;
}

abbrev final : Routing
final = (complete answers needs none (λ i. true) 100 tables 5).1

complete-IsUsableReply_example :
    IsUsableReply answers needs none (λ i. true) 100 (snapshots tables 100 5) 99
unfolding complete snapshots try_candidates find filter any sort_by insert_by modify_first is_usable
complete-IsUsableReply_example =
    complete-IsUsableReply answers needs none (λ i. true) 100 tables 5 99 final refl

complete_tries_example :
    (complete answers needs none (λ i. true) 100 tables 5).1.tries
    ≤ credential_count (snapshots tables 100 5)
complete_tries_example = complete_tries answers 100 needs none (λ i. true) tables 5
