-- ===== src/Security/Config.antt =====
-- src/anse_harness/security/config.py: the hardened configuration, its JSON object and the reference
-- configuration. The items that the source keeps unconverted are the values that they are.
pub mod RoundTrip
pub mod Hardened
use ai_native_sweng.Prelude.{
  String, Bool, List, [], ◌∷◌, map, ◌&&◌, Result, ok, err, value_error, attribute_error, guard,
  member, traverse, ◌>>=◌, ◌>>◌,
}
use ai_native_sweng.Json.Value.{
  ℤ, pos, Json, bool, int, str, obj, Dict, end, field, dict, object, array,
}
use ai_native_sweng.Json.Convert.{
  Builtins, index, index_any, get_or_any, has, iterate, truthy, as_str, as_int, subscripted,
}
use ai_native_sweng.Security.Matrix.{
  CapabilityClass, observation, local_reversible, local_consequential, external_reversible,
  external_consequential, prohibited, class_value, RepoClassification, trusted_internal,
  untrusted_external, repo_value, MatrixDecision, allow, approve, deny, MatrixRow, default_matrix,
  repo_registry,
}

pub record AuditRetention : Type 0 where
  pub max_age_days : ℤ
  pub retained_event_types : List Json

pub record HardenedConfig : Type 0 where
  pub repository_classification : List (String × RepoClassification)
  pub policy_matrix : List MatrixRow
  pub network_default : String
  pub network_allow_destinations : List Json
  pub credential_scopes : List (String × List Json)
  pub env_allowlist : List Json
  pub disabled_capabilities : List Json
  pub audit_retention : AuditRetention

-- MatrixDecision's values
unfoldable pub matrix_decision_value : MatrixDecision → String
matrix_decision_value allow = "allow"
matrix_decision_value approve = "approve"
matrix_decision_value deny = "deny"

-- AuditRetention.to_dict
unfoldable pub retention_dict : AuditRetention → Dict
retention_dict a = dict (
    ("max_age_days", int a.max_age_days)
    ∷ ("retained_event_types", array a.retained_event_types)
    ∷ [])

unfoldable pub row_dict : MatrixRow → Dict
unfolding class_value repo_value matrix_decision_value
row_dict r = dict (
    ("capability", str (class_value r.capability))
    ∷ ("repo", str (repo_value r.repo))
    ∷ ("decision", str (matrix_decision_value r.decision))
    ∷ ("audit_required", bool r.audit_required)
    ∷ [])

-- HardenedConfig.to_dict
unfoldable pub config_dict : HardenedConfig → Dict
unfolding retention_dict row_dict repo_value
config_dict c = dict (
    ("audit_retention", obj (retention_dict c.audit_retention))
    ∷ ("capability_shutdown", object (("disabled", array c.disabled_capabilities) ∷ []))
    ∷ ("credential_scopes", object (map (λ (k, v). (k, array v)) c.credential_scopes))
    ∷ ("env_allowlist", array c.env_allowlist)
    ∷ (
      "network_policy",
      object (
          ("default", str c.network_default)
          ∷ ("allow_destinations", array c.network_allow_destinations)
          ∷ []),
    )
    ∷ ("policy_matrix", array (map (λ r. obj (row_dict r)) c.policy_matrix))
    ∷ (
      "repository_classification",
      object (map (λ (k, v). (k, str (repo_value v))) c.repository_classification),
    )
    ∷ [])

-- x.items()
unfoldable pub entries : Dict → List (String × Json)
entries end = []
entries (field k v rest) = (k, v) ∷ entries rest

unfoldable pub items_of : Json → Result (List (String × Json))
unfolding entries
items_of (obj d) = ok (entries d)
items_of _ = err attribute_error

-- `Enum(value)`, where the value need not be a str
unfoldable pub member_of : {A : Type 0} → (A → String) → List A → Json → Result A
unfolding member
member_of value all (str s) = member value all s
member_of value all _ = err value_error

abbrev pub classes : List CapabilityClass
classes =
    observation ∷ local_reversible ∷ local_consequential ∷ external_reversible
    ∷ external_consequential ∷ prohibited ∷ []

abbrev pub classifications : List RepoClassification
classifications = trusted_internal ∷ untrusted_external ∷ []

abbrev pub decisions : List MatrixDecision
decisions = allow ∷ approve ∷ deny ∷ []

abbrev pub capability_class : Json → Result CapabilityClass
capability_class = member_of class_value classes

abbrev pub repo_classification : Json → Result RepoClassification
repo_classification = member_of repo_value classifications

abbrev pub matrix_decision : Json → Result MatrixDecision
matrix_decision = member_of matrix_decision_value decisions

unfoldable pub matrix_row : Json → Result MatrixRow
unfolding index_any truthy
matrix_row row = do
  capability_raw ← index_any row "capability"
  capability ← capability_class capability_raw
  repo_raw ← index_any row "repo"
  repo ← repo_classification repo_raw
  decision_raw ← index_any row "decision"
  decision ← matrix_decision decision_raw
  audit_raw ← index_any row "audit_required"
  ok (record {
    capability = capability;
    repo = repo;
    decision = decision;
    audit_required = truthy audit_raw;
  })

unfoldable pub scope : String × Json → Result (String × List Json)
unfolding iterate
scope (k, v) = do xs ← iterate v; ok (k, xs)

unfoldable pub classified : String × Json → Result (String × RepoClassification)
classified (k, v) = do c ← repo_classification v; ok (k, c)

-- not (required - data.keys())
unfoldable pub is_complete : Dict → Bool
unfolding has
is_complete d =
    has d "repository_classification"
    && has d "policy_matrix"
    && has d "network_policy"
    && has d "credential_scopes"
    && has d "env_allowlist"
    && has d "capability_shutdown"
    && has d "audit_retention"

module _ (py : Builtins) where
  -- AuditRetention.from_dict
  unfoldable pub audit_retention_from : Dict → Result AuditRetention
  audit_retention_from d = do
    age_raw ← index d "max_age_days"
    age ← as_int py age_raw
    types_raw ← index d "retained_event_types"
    types ← iterate types_raw
    ok (record { max_age_days = age; retained_event_types = types })

  -- HardenedConfig.from_dict
  unfoldable pub hardened_config : Dict → Result HardenedConfig
  unfolding is_complete items_of classified scope matrix_row audit_retention_from get_or_any
      subscripted
  hardened_config d = do
    guard (is_complete d) value_error
    classification_raw ← index d "repository_classification"
    classification_items ← items_of classification_raw
    classification ← traverse classified classification_items
    matrix_raw ← index d "policy_matrix"
    matrix_items ← iterate matrix_raw
    matrix ← traverse matrix_row matrix_items
    network ← index d "network_policy"
    default_raw ← index_any network "default"
    destinations_raw ← get_or_any network "allow_destinations" (array [])
    destinations ← iterate destinations_raw
    scopes_raw ← index d "credential_scopes"
    scope_items ← items_of scopes_raw
    scopes ← traverse scope scope_items
    env_raw ← index d "env_allowlist"
    env ← iterate env_raw
    shutdown ← index d "capability_shutdown"
    disabled_raw ← get_or_any shutdown "disabled" (array [])
    disabled ← iterate disabled_raw
    retention_raw ← index d "audit_retention"
    retention_dict ← subscripted retention_raw
    retention ← audit_retention_from retention_dict
    ok (record {
      repository_classification = classification;
      policy_matrix = matrix;
      network_default = as_str py default_raw;
      network_allow_destinations = destinations;
      credential_scopes = scopes;
      env_allowlist = env;
      disabled_capabilities = disabled;
      audit_retention = retention;
    })

-- default_hardened_config; the environment allowlist is DEFAULT_ENV_ALLOWLIST, sorted
unfoldable pub default_hardened_config : HardenedConfig
unfolding default_matrix class_value
default_hardened_config = record {
  repository_classification = repo_registry;
  policy_matrix = default_matrix;
  network_default = "deny";
  network_allow_destinations = [];
  credential_scopes = ("github", str "repo:status" ∷ str "pull_request:write" ∷ []) ∷ [];
  env_allowlist = map str ("GOCACHE" ∷ "GOPATH" ∷ "HOME" ∷ "LANG" ∷ "PATH" ∷ []);
  disabled_capabilities =
      str (class_value external_reversible) ∷ str (class_value external_consequential) ∷ [];
  audit_retention = record {
    max_age_days = pos 90;
    retained_event_types =
        map str ("policy_evaluated" ∷ "approval_resolved" ∷ "escalation_created" ∷ []);
  };
}
