-- ===== src/Ibac/Fixtures.antt =====
-- Requests, policies, rules and models for the tests of the engine.
use agentic_bus.Common.{
  List, [], ◌∷◌, Bool, true, false, Option, none, some, Text, codes, str, obj, end, field, pos,
}
use agentic_bus.Ibac.Types.{
  execution_authorization, DeclaredIntent, DerivedFacts, IntentManifest, IbacRequest, IbacPolicy,
  Conditions, IbacRule, denies,
}
use agentic_bus.Ibac.Semantic.{Model}
use agentic_bus.Ibac.Engine.{Environment}

abbrev pub planner : Text
planner = codes "planner"

abbrev pub facts : Text → DerivedFacts
facts sender = record {
  evaluation_point = codes "execution_authorization";
  session_id = codes "s1";
  authenticated_subject = codes "alice";
  authenticated_agent_id = sender;
  identity_verified = true;
  resource_classification = codes "internal";
  destination_external = some false;
  tenant_id = codes "7";
  attributes = [];
}

abbrev pub intent : DeclaredIntent
intent = record {
  intent_text = codes "Please DELETE the ledger";
  purpose = [];
  context = [];
  requested_scopes = codes "ledger:write" ∷ [];
  proposed_capabilities = planner ∷ [];
  data_domains = codes "finance" ∷ [];
  claimed_agent_id = planner;
}

abbrev pub manifest_from : Text → IntentManifest
manifest_from sender = record { declared = intent; derived = facts sender }

abbrev pub request_with : Option IntentManifest → IbacRequest
request_with manifest = record {
  evaluation_point = execution_authorization;
  requester_id = codes "alice";
  requester_oidc_subject = codes "alice";
  agent_id = planner;
  intent_text = codes "Please DELETE the ledger";
  intent_context = [];
  requested_scopes = codes "ledger:write" ∷ [];
  proposed_capabilities = planner ∷ [];
  negotiated_constraints = [];
  data_domains = codes "finance" ∷ [];
  manifest = manifest;
}

abbrev pub honest : IbacRequest
honest = request_with (some (manifest_from planner))

abbrev pub forged : IbacRequest
forged = request_with (some (manifest_from (codes "mallory")))

abbrev pub no_conditions : Conditions
no_conditions = record {
  require_human_approval = false;
  intent_keywords = [];
  intent_patterns = [];
  blocked_agents = [];
  allowed_agents = [];
  blocked_scopes = [];
  allowed_scopes = [];
  blocked_domains = [];
  allowed_domains = [];
  max_agents = none;
}

abbrev pub rule_with : Conditions → IbacRule
rule_with conditions = record {
  rule_id = codes "r1";
  name = codes "no deletion";
  description = codes "Nothing is deleted from a ledger.";
  enabled = true;
  priority = pos 10;
  action = denies;
  evaluation_points = [];
  conditions = conditions;
}

abbrev pub no_deletion : IbacRule
no_deletion = rule_with (record no_conditions { intent_keywords = codes "delete" ∷ [] })

abbrev pub harmless : IbacRule
harmless = rule_with (record no_conditions { blocked_agents = codes "mallory" ∷ [] })

abbrev pub ledger_policy : IbacPolicy
ledger_policy = record {
  policy_id = codes "p1";
  description = [];
  evaluation_points = execution_authorization ∷ [];
  allowed_scopes = codes "ledger:read" ∷ [];
  denied_scopes = [];
  allowed_data_domains = [];
  denied_data_domains = [];
}

abbrev pub no_match : Text → Text → Option Bool
no_match pattern text = some false

abbrev pub answering : Text → Model
answering word rules request = some (obj (field (codes "decision") (str word) end))

abbrev pub environment : Option (List IbacRule) → Option Model → Environment
environment rules llm = record { rules = rules; re_search = no_match; llm = llm }

abbrev pub consenting : Environment
consenting = environment (some (harmless ∷ [])) (some (answering (codes " Allow")))
