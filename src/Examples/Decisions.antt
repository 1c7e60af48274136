-- ===== src/Examples/Decisions.antt =====
-- A protocol decision.
use ai_native_sweng.Prelude.{String, Bool, [], ◌∷◌, ◌==◌}
use ai_native_sweng.Json.Value.{str}
use ai_native_sweng.Integrations.Decisions.{ProtocolDecisionRecord}

abbrev over_mcp : ProtocolDecisionRecord
over_mcp = record {
  capability = "repository search";
  chosen = "mcp";
  justifications = str "process_isolation" ∷ [];
  rejected_alternatives = str "rest_api" ∷ [];
  rationale = "the server is owned elsewhere";
}

abbrev is_empty_text : String → Bool
is_empty_text s = s == ""
