-- ===== src/Integrations/GitHub.antt =====
-- src/anse_harness/integrations/github.py: LiveHTTPTransport, the token of the environment and the
-- packaging of a workflow's patch. `urlopen`, `str.rstrip` and JSON are arguments, and so is the
-- adapter, whose own methods raise.
pub mod Transport
use ai_native_sweng.Prelude.{
  ℕ, String, Bool, true, Option, none, some, List, [], ◌∷◌, ◌||◌, ◌==◌, eqb, leb, concat,
  if◌then◌else◌, Result, ok, err, Error, integration_error, runtime_error, value_error, ◌>>=◌,
}
use ai_native_sweng.Json.Value.{Float, Dict, end}
use ai_native_sweng.Integrations.LocalDouble.{IntegrationRequest, IntegrationResponse}

-- github_token_from_env: what the variable holds, if it is set
unfoldable pub github_token_from_env : Option String → Result String
github_token_from_env none = err runtime_error
github_token_from_env (some token) = if token == "" then err runtime_error else ok token

-- What `urlopen` and the reading of the answer do: a status and a text, or HTTPError, TimeoutError,
-- another URLError, or anything else.
pub data Opened : Type 0 where
  opened : (status : ℕ) (body : String) → Opened
  http_error : (code : ℕ) → Opened
  timed_out url_error : Opened
  other_error : Error → Opened

pub record HttpRequest : Type 0 where
  pub url : String
  pub data_of : Option String
  pub method : String
  pub headers : List (String × String)

pub record LiveHttpTransport : Type 0 where
  pub base_url : String
  pub token : String
  pub timeout : Float

-- LiveHTTPTransport.__init__
unfoldable pub live_http_transport :
    (without_slash : String → String) → String → String → Float → LiveHttpTransport
live_http_transport without_slash base_url token timeout = record {
  base_url = without_slash base_url;
  token = token;
  timeout = timeout;
}

-- LiveHTTPTransport._headers
unfoldable pub headers_of : LiveHttpTransport → List (String × String)
unfolding concat
headers_of t =
    ("Authorization", concat ("Bearer " ∷ t.token ∷ []))
    ∷ ("Accept", "application/vnd.github+json")
    ∷ ("Content-Type", "application/json")
    ∷ []

unfoldable pub is_retryable : ℕ → Bool
is_retryable code = leb 500 code || eqb code 429

module _ (dumps : Dict → String) (loads : String → Result Dict) where
  unfoldable pub http_request : LiveHttpTransport → IntegrationRequest → HttpRequest
  unfolding headers_of concat
  http_request t request = record {
    url = concat (t.base_url ∷ request.path ∷ []);
    data_of = if request.method == "POST" then some (dumps request.body) else none;
    method = request.method;
    headers = headers_of t;
  }

  -- the answer, and the handlers
  unfoldable pub response_of : String → Opened → Result IntegrationResponse
  unfolding is_retryable
  response_of action (opened status body) = do
    parsed ← if body == "" then ok end else loads body
    ok (record { action = action; status = status; data_of = parsed })
  response_of action (http_error code) = err (integration_error (is_retryable code))
  response_of action timed_out = err (integration_error true)
  response_of action url_error = err (integration_error true)
  response_of action (other_error e) = err e

  -- LiveHTTPTransport.send
  unfoldable pub live_send :
      (urlopen : HttpRequest → Float → Opened)
      → LiveHttpTransport
      → IntegrationRequest
      → Result IntegrationResponse
  unfolding http_request response_of
  live_send urlopen t request =
      response_of request.action (urlopen (http_request t request) t.timeout)

-- draft_pr_from_workflow_result: `create` is the adapter's create_draft_pr, given the diff, and
-- `patch` the result's patch
unfoldable pub draft_pr_from_workflow_result :
    (platform : Option (String → Result Dict)) (patch : Option String) → Result (Option Dict)
draft_pr_from_workflow_result none patch = ok none
draft_pr_from_workflow_result (some create) none = err value_error
draft_pr_from_workflow_result (some create) (some diff) =
    let response = create diff in
    if diff == "" then err value_error else (do r ← response; ok (some r))
