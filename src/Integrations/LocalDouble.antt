-- ===== src/Integrations/LocalDouble.antt =====
-- src/anse_harness/integrations/local_double.py: the in-process stand-in for the repository
-- platform, and the request and response types of integrations/contracts.py.
-- A method returns its result and the state that it leaves, on the raising paths too.
pub mod Drafts
pub mod Idempotency
use ai_native_sweng.Prelude.{
  ℕ, suc, String, Bool, true, false, Option, none, some, List, [], ◌∷◌, ◌++◌, Result, ok, err,
  integration_error, ◌>>=◌, if◌then◌else◌, ◌==◌, concat, decimal,
}
use ai_native_sweng.Json.Value.{ℤ, pos, Json, bool, int, str, Dict, end, field, dict}
use ai_native_sweng.Json.Convert.{Builtins, index, get, get_or, as_int, as_str}

pub record IntegrationRequest : Type 0 where
  pub action : String
  pub method : String
  pub path : String
  pub body : Dict
  pub idempotency_key : Option String

pub record IntegrationResponse : Type 0 where
  pub action : String
  pub status : ℕ
  pub data_of : Dict

-- d[k] = v: in place, or a new item at the end
unfoldable pub insert : String → Json → Dict → Dict
insert k v end = field k v end
insert k v (field j w rest) = if j == k then field j v rest else field j w (insert k v rest)

-- the draft pull requests by idempotency key
abbrev pub Drafts : Type 0
Drafts = List (String × Dict)

unfoldable pub find : String → Drafts → Option Dict
find k [] = none
find k ((j, pr) ∷ rest) = if j == k then some pr else find k rest

pub record Double : Type 0 where
  -- the fixtures: issues by number, and CI states by ref
  pub issues : ℤ → Option Dict
  pub ci : String → Option Dict
  pub prs_by_key : Drafts
  pub next_pr : ℕ
  pub sent : List IntegrationRequest
  pub raise_timeout : Bool

-- LocalGitHubDouble.__init__
unfoldable pub new : (ℤ → Option Dict) → (String → Option Dict) → Double
new issues ci = record {
  issues = issues;
  ci = ci;
  prs_by_key = [];
  next_pr = 101;
  sent = [];
  raise_timeout = false;
}

-- request.idempotency_key or ""
unfoldable pub key_of : IntegrationRequest → String
key_of r = elim r.idempotency_key [ some k ↦ k | none ↦ "" ]

-- x is True
unfoldable pub is_true : Json → Bool
is_true (bool b) = b
is_true _ = false

unfoldable pub draft_of : ℕ → Json → Dict
unfolding concat decimal
draft_of n title = dict (
    ("number", int (pos n))
    ∷ ("draft", bool true)
    ∷ ("state", str "open")
    ∷ ("html_url", str (concat ("https://github.invalid/pull/" ∷ decimal n ∷ [])))
    ∷ ("title", title)
    ∷ [])

unfoldable pub create_response : ℕ → Dict → Bool → IntegrationResponse
unfolding insert
create_response status pr deduped = record {
  action = "create_draft_pr";
  status = status;
  data_of = insert "deduped" (bool deduped) pr;
}

-- the boundary refuses a create that is not a draft
unfoldable pub create_new : Bool → IntegrationRequest → Double → Result IntegrationResponse × Double
create_new false r s = (err (integration_error false), s)
create_new true r s =
    let pr = draft_of s.next_pr (get_or r.body "title" (str "")) in
    (
      ok (create_response 201 pr false),
      record s { next_pr = suc s.next_pr; prs_by_key = s.prs_by_key ++ (key_of r, pr) ∷ [] },
    )

unfoldable pub reuse_or_create :
    Option Dict → IntegrationRequest → Double → Result IntegrationResponse × Double
unfolding create_new
reuse_or_create (some pr) r s = (ok (create_response 200 pr true), s)
reuse_or_create none r s = create_new (is_true (get r.body "draft")) r s

-- _create_draft_pr
unfoldable pub create_draft_pr : IntegrationRequest → Double → Result IntegrationResponse × Double
unfolding reuse_or_create
create_draft_pr r s = reuse_or_create (find (key_of r) s.prs_by_key) r s

module _ (py : Builtins) where
  -- _read_issue
  unfoldable pub read_issue : IntegrationRequest → Double → Result IntegrationResponse
  read_issue r s = do
    raw ← index r.body "number"
    number ← as_int py raw
    elim (s.issues number) [
      | some issue ↦ ok (record { action = "read_issue"; status = 200; data_of = issue })
      | none ↦ err (integration_error false)
    ]

  -- _read_ci_status
  unfoldable pub read_ci_status : IntegrationRequest → Double → Result IntegrationResponse
  read_ci_status r s = do
    raw ← index r.body "ref"
    ok (record {
      action = "read_ci_status";
      status = 200;
      data_of = elim (s.ci (as_str py raw)) [
        | some status ↦ status
        | none ↦ dict (("state", str "unknown") ∷ ("total_count", int (pos 0)) ∷ [])
      ];
    })

  -- the dispatch of `send` on the action
  unfoldable pub dispatch : IntegrationRequest → Double → Result IntegrationResponse × Double
  dispatch r s =
      if s.raise_timeout
      then (err (integration_error true), s)
      else if r.action == "read_issue"
      then (read_issue r s, s)
      else if r.action == "read_ci_status"
      then (read_ci_status r s, s)
      else if r.action == "create_draft_pr"
      then create_draft_pr r s
      else (err (integration_error false), s)

  -- LocalGitHubDouble.send
  unfoldable pub send : IntegrationRequest → Double → Result IntegrationResponse × Double
  send r s = dispatch r (record s { sent = s.sent ++ r ∷ [] })
