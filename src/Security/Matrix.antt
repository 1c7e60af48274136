-- ===== src/Security/Matrix.antt =====
-- src/anse_harness/security/matrix.py and capabilities.py: the default policy matrix, its lookup,
-- and the classification of repositories; shutdown.py: the set of disabled capabilities.
pub mod Trust
pub mod Switch
use ai_native_sweng.Prelude.{
  ℕ, String, Bool, true, false, Option, some, none, List, [], ◌∷◌, ◌++◌, Result, ok, err, key_error,
  concat, contains, not, ◌&&◌, ◌==◌, if◌then◌else◌,
}

pub data CapabilityClass : Type 0 where
  observation local_reversible local_consequential external_reversible external_consequential
        prohibited :
      CapabilityClass

unfoldable pub class_value : CapabilityClass → String
class_value observation = "class-0-observation"
class_value local_reversible = "class-1-local-reversible"
class_value local_consequential = "class-2-local-consequential"
class_value external_reversible = "class-3-external-reversible"
class_value external_consequential = "class-4-external-consequential"
class_value prohibited = "class-5-prohibited"

pub data RepoClassification : Type 0 where
  trusted_internal untrusted_external : RepoClassification

unfoldable pub repo_value : RepoClassification → String
repo_value trusted_internal = "trusted-internal"
repo_value untrusted_external = "untrusted-external"

pub data MatrixDecision : Type 0 where
  allow approve deny : MatrixDecision

-- DECISION_RANK
unfoldable pub decision_rank : MatrixDecision → ℕ
decision_rank allow = 0
decision_rank approve = 1
decision_rank deny = 2

pub record MatrixRow : Type 0 where
  pub capability : CapabilityClass
  pub repo : RepoClassification
  pub decision : MatrixDecision
  pub audit_required : Bool

pub record MatrixResult : Type 0 where
  pub decision : MatrixDecision
  pub audit_required : Bool
  pub reason : String

abbrev row : CapabilityClass → RepoClassification → MatrixDecision → Bool → MatrixRow
row c r d audit = record { capability = c; repo = r; decision = d; audit_required = audit }

-- repo is RepoClassification.UNTRUSTED_EXTERNAL
unfoldable pub is_untrusted : RepoClassification → Bool
is_untrusted trusted_internal = false
is_untrusted untrusted_external = true

-- the rows that one pass of the loop adds
unfoldable pub rows_of : RepoClassification → List MatrixRow
unfolding is_untrusted
rows_of repo =
    row observation repo allow false
    ∷ row local_reversible repo (if is_untrusted repo then approve else allow) true
    ∷ row local_consequential repo (if is_untrusted repo then deny else approve) true
    ∷ row external_reversible repo approve true
    ∷ row external_consequential repo deny true
    ∷ row prohibited repo deny true
    ∷ []

-- _default_matrix
unfoldable pub default_matrix : List MatrixRow
unfolding rows_of
default_matrix = rows_of trusted_internal ++ rows_of untrusted_external

-- the row under a key: of the rows with one key, the dict of `PolicyMatrix` keeps the last
unfoldable pub row_at : List MatrixRow → CapabilityClass → RepoClassification → Option MatrixRow
unfolding class_value repo_value
row_at [] c r = none
row_at (x ∷ xs) c r = elim (row_at xs c r) [
  | some later ↦ some later
  | none ↦
      if class_value x.capability == class_value c && repo_value x.repo == repo_value r
      then some x
      else none
]

-- PolicyMatrix.lookup
unfoldable pub matrix_lookup :
    List MatrixRow → CapabilityClass → RepoClassification → Result MatrixResult
unfolding row_at concat
matrix_lookup rows c r =
    let reason = concat ("matrix[" ∷ class_value c ∷ "," ∷ repo_value r ∷ "]" ∷ []) in
    elim (row_at rows c r) [
      | some x ↦
          ok (record { decision = x.decision; audit_required = x.audit_required; reason = reason })
      | none ↦ err (key_error reason)
    ]

-- REPO_REGISTRY
abbrev pub repo_registry : List (String × RepoClassification)
repo_registry =
    ("ai-native-sweng-bookit", trusted_internal)
    ∷ ("ai-native-sweng-bookit-platform", trusted_internal)
    ∷ ("ai-native-sweng-minefield", untrusted_external)
    ∷ []

unfoldable pub registered : String → List (String × RepoClassification) → Option RepoClassification
registered name [] = none
registered name ((n, r) ∷ rest) = if n == name then some r else registered name rest

-- classify_repo
unfoldable pub classify_repo : String → RepoClassification
unfolding registered
classify_repo name = elim (registered name repo_registry) [ some r ↦ r | none ↦ untrusted_external ]

-- CapabilityShutdown: the members of the set, each once
abbrev pub Shutdown : Type 0
Shutdown = List String

-- CapabilityShutdown.disable
unfoldable pub disable : String → Shutdown → Shutdown
unfolding contains
disable id disabled = if contains disabled id then disabled else disabled ++ id ∷ []

-- CapabilityShutdown.enabled
unfoldable pub enabled : String → Shutdown → Bool
enabled id disabled = not (contains disabled id)
