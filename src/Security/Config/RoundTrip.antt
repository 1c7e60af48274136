-- ===== src/Security/Config/RoundTrip.antt =====
-- The configuration is read back as it was written.
use ai_native_sweng.Prelude.{String, List, [], ◌∷◌, ◌≡◌, refl, ok, traverse-map, ap, member}
use ai_native_sweng.Json.Value.{Json, str, obj, dict, array, items_list-items}
use ai_native_sweng.Json.Convert.{Builtins, reading}
use ai_native_sweng.Security.Matrix.{
  CapabilityClass, observation, local_reversible, local_consequential, external_reversible,
  external_consequential, prohibited, class_value, RepoClassification, trusted_internal,
  untrusted_external, repo_value, MatrixDecision, allow, approve, deny, MatrixRow,
}
use ai_native_sweng.Security.Config.{
  HardenedConfig, config_dict, row_dict, retention_dict, hardened_config, audit_retention_from,
  matrix_row, scope, classified, entries, items_of, member_of, is_complete, capability_class,
  repo_classification, matrix_decision, matrix_decision_value,
}

pub entries-dict : (xs : List (String × Json)) → entries (dict xs) ≡ xs
unfolding entries
entries-dict [] = refl
entries-dict ((k, v) ∷ xs) = ap (λ ys. (k, v) ∷ ys) (entries-dict xs)

capability_class-str : (c : CapabilityClass) → capability_class (str (class_value c)) ≡ ok c
unfolding class_value member_of member
capability_class-str observation = refl
capability_class-str local_reversible = refl
capability_class-str local_consequential = refl
capability_class-str external_reversible = refl
capability_class-str external_consequential = refl
capability_class-str prohibited = refl

repo_classification-str : (r : RepoClassification) → repo_classification (str (repo_value r)) ≡ ok r
unfolding repo_value member_of member
repo_classification-str trusted_internal = refl
repo_classification-str untrusted_external = refl

matrix_decision-str : (d : MatrixDecision) → matrix_decision (str (matrix_decision_value d)) ≡ ok d
unfolding matrix_decision_value member_of member
matrix_decision-str allow = refl
matrix_decision-str approve = refl
matrix_decision-str deny = refl

matrix_row-row_dict : (r : MatrixRow) → matrix_row (obj (row_dict r)) ≡ ok r
unfolding matrix_row row_dict reading
matrix_row-row_dict r =
    rw
      (
        capability_class-str r.capability,
        repo_classification-str r.repo,
        matrix_decision-str r.decision,
      )
      refl

scope-item : (x : String × List Json) → scope (x.0, array x.1) ≡ ok x
unfolding scope reading
scope-item (k, v) = rw (items_list-items v) refl

classified-item : (x : String × RepoClassification) → classified (x.0, str (repo_value x.1)) ≡ ok x
unfolding classified
classified-item (k, v) = rw (repo_classification-str v) refl

module _ (py : Builtins) where
  -- Reading what was written gives it back.
  pub hardened_config-config_dict : (c : HardenedConfig) → hardened_config py (config_dict c) ≡ ok c
  unfolding hardened_config config_dict reading items_of is_complete retention_dict
      audit_retention_from
  hardened_config-config_dict c = simp (
    entries-dict,
    items_list-items,
    traverse-map classified (λ (k, v). (k, str (repo_value v))) classified-item,
    traverse-map scope (λ (k, v). (k, array v)) scope-item,
    traverse-map matrix_row (λ r. obj (row_dict r)) matrix_row-row_dict,
  )
