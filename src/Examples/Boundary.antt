-- ===== src/Examples/Boundary.antt =====
-- The approval boundary, the local double and the live transport at concrete requests.
use ai_native_sweng.Prelude.{ℕ, List}
use ai_native_sweng.Integrations.GitHub.{LiveHttpTransport, HttpRequest, Opened, http_error}
use ai_native_sweng.Prelude.{
  String, none, some, [], ◌∷◌, ◌≡◌, refl, ok, err, Result, permission_error, true, false,
}
use ai_native_sweng.Json.Value.{pos, bool, str, Dict, dict, lookup}
use ai_native_sweng.Json.Convert.{Builtins, get, get_or}
use ai_native_sweng.Approvals.{reject_all, decision_value}
use ai_native_sweng.Integrations.Mcp.{McpToolCapability, Session, gated_tools_call}
use ai_native_sweng.Integrations.Mcp.Gate.{gated_tools_call_lem}
use ai_native_sweng.Integrations.LocalDouble.{
  IntegrationRequest, IntegrationResponse, Double, new, create_draft_pr, key_of, find,
  reuse_or_create, create_new, create_response, draft_of, is_true,
}
use ai_native_sweng.Integrations.LocalDouble.Idempotency.{create_draft_pr_twice, number_of}
use ai_native_sweng.Integrations.LocalDouble.Drafts.{IsSafe, send_all, send_all-IsSafe, new-IsSafe}

abbrev deploy : McpToolCapability
deploy = record { tool_name = "deploy"; side_effect_class = pos 4 }

-- a server that answers every call with an empty reply
abbrev silent_server : String → Dict → Result Dict
silent_server name arguments = ok (dict [])

abbrev session : Session
session = record {
  recorder = record {
    recording = true;
    run_id = "run-1";
    workflow_id = "wf-1";
    prefix = "int";
    seq = 0;
    clock = λ n. "2026-01-01T00:00:00Z";
    lines = [];
  };
  calls = [];
}

gated_tools_call_lem_example :
    ((gated_tools_call reject_all silent_server deploy (dict []) "ops" session).1.calls ≡ [])
    × ((gated_tools_call reject_all silent_server deploy (dict []) "ops" session).0
        ≡ err permission_error)
unfolding reject_all decision_value
gated_tools_call_lem_example =
    gated_tools_call_lem reject_all silent_server deploy "ops" (dict []) session

abbrev draft : String → IntegrationRequest
draft title = record {
  action = "create_draft_pr";
  method = "POST";
  path = "/pulls";
  body = dict (("title", str title) ∷ ("draft", bool true) ∷ []);
  idempotency_key = some "task-1";
}

abbrev fresh : Double
fresh = new (λ n. none) (λ ref. none)

abbrev one_pr : Double
one_pr = record fresh { prs_by_key = ("task-1", draft_of 101 (str "Fix")) ∷ []; next_pr = 102 }

abbrev first_response : IntegrationResponse
first_response = create_response 201 (draft_of 101 (str "Fix")) false

-- builtins that raise outside the types that the writers produce
abbrev pub strict : Builtins
strict = record {
  repr = λ v. "";
  int_of = λ v. err permission_error;
  float_of = λ v. err permission_error;
  dict_of = λ v. err permission_error;
}

-- an issue is asked for, and a second pull request is created
abbrev between : List IntegrationRequest
between =
    record {
      action = "read_issue";
      method = "GET";
      path = "/issues/1";
      body = dict [];
      idempotency_key = none;
    }
    ∷ record (draft "Other") { action = "create_draft_pr"; idempotency_key = some "key-2" }
    ∷ []

create_draft_pr_twice_example :
    (resp' : IntegrationResponse) × (create_draft_pr
        (draft "Fix again")
        (send_all strict between one_pr)
      ≡ (ok resp', send_all strict between one_pr))
    × (resp'.status ≡ 200)
    × (number_of resp' ≡ number_of first_response)
    × (get resp'.data_of "deduped" ≡ bool true)
unfolding create_draft_pr reuse_or_create create_new key_of find is_true get get_or lookup new
create_draft_pr_twice_example =
    create_draft_pr_twice strict (draft "Fix") (draft "Fix again") between fresh one_pr
      first_response refl refl

send_all-IsSafe_example : IsSafe (send_all strict (draft "Fix" ∷ draft "Fix again" ∷ []) fresh)
send_all-IsSafe_example =
    send_all-IsSafe strict (draft "Fix" ∷ draft "Fix again" ∷ []) fresh
      (new-IsSafe (λ n. none) (λ ref. none))

abbrev live : LiveHttpTransport
live = record { base_url = "https://api.github.com"; token = "t"; timeout = 0 }

-- a server that is down
abbrev unavailable : HttpRequest → ℕ → Opened
unavailable request timeout = http_error 503

-- a parser that reads nothing
abbrev unparsed : String → Result Dict
unparsed text = err permission_error
