-- ===== src/Security/Config/Hardened.antt =====
-- The reference configuration keeps what a hardened configuration has to keep.
use ai_native_sweng.Prelude.{◌≡◌, refl, ok, some, All}
use ai_native_sweng.Security.Matrix.{
  CapabilityClass, observation, local_reversible, local_consequential, external_reversible,
  external_consequential, prohibited, RepoClassification, trusted_internal, untrusted_external,
  MatrixDecision, deny, MatrixRow, MatrixResult, matrix_lookup, registered, default_matrix, rows_of,
  row_at, class_value, repo_value, is_untrusted,
}
use ai_native_sweng.Security.Config.{HardenedConfig, default_hardened_config}

-- Consequential actions on the outside, and prohibited ones, are denied.
unfoldable pub IsCautious : CapabilityClass → MatrixDecision → Type 0
IsCautious external_consequential decision = decision ≡ deny
IsCautious prohibited decision = decision ≡ deny
IsCautious _ decision = Unit

unfoldable pub IsDecided : HardenedConfig → CapabilityClass → RepoClassification → Type 0
IsDecided h c r =
    (result : MatrixResult) × (matrix_lookup h.policy_matrix c r ≡ ok result)
    × IsCautious c result.decision

decided : (c : CapabilityClass) (r : RepoClassification) → IsDecided default_hardened_config c r
unfolding IsDecided IsCautious default_hardened_config matrix_lookup default_matrix rows_of row_at
    class_value repo_value is_untrusted
decided observation trusted_internal = (_, refl, tt)
decided observation untrusted_external = (_, refl, tt)
decided local_reversible trusted_internal = (_, refl, tt)
decided local_reversible untrusted_external = (_, refl, tt)
decided local_consequential trusted_internal = (_, refl, tt)
decided local_consequential untrusted_external = (_, refl, tt)
decided external_reversible trusted_internal = (_, refl, tt)
decided external_reversible untrusted_external = (_, refl, tt)
decided external_consequential trusted_internal = (_, refl, refl)
decided external_consequential untrusted_external = (_, refl, refl)
decided prohibited trusted_internal = (_, refl, refl)
decided prohibited untrusted_external = (_, refl, refl)

-- The reference configuration denies the network by default, classifies the minefield as untrusted,
-- and decides on every capability in every repository; no row of its matrix, nor what is looked up in
-- it, allows a consequential external or a prohibited action.
pub default_hardened_config_lem :
    (c : CapabilityClass) (r : RepoClassification)
    → (default_hardened_config.network_default ≡ "deny")
      × (registered "ai-native-sweng-minefield" default_hardened_config.repository_classification
          ≡ some untrusted_external)
      × All
          (λ (row : MatrixRow). IsCautious row.capability row.decision)
          default_hardened_config.policy_matrix
      × IsDecided default_hardened_config c r
unfolding IsCautious default_hardened_config registered default_matrix rows_of is_untrusted
default_hardened_config_lem c r = (
  refl,
  refl,
  (tt, (tt, (tt, (tt, (refl, (refl, (tt, (tt, (tt, (tt, (refl, (refl, tt)))))))))))),
  decided c r,
)
