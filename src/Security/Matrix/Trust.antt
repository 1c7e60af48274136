-- ===== src/Security/Matrix/Trust.antt =====
-- An unknown repository is untrusted, and the matrix is monotone in trust.
use ai_native_sweng.Prelude.{String, none, some, ◌≡◌, ◌≤◌, refl, ok, arith, ap, sym}
use mathlib.Core.Path.{subst}
use ai_native_sweng.Security.Matrix.{
  CapabilityClass, observation, local_reversible, local_consequential, external_reversible,
  external_consequential, prohibited, RepoClassification, trusted_internal, untrusted_external,
  decision_rank, MatrixResult, default_matrix, rows_of, is_untrusted, row_at, matrix_lookup,
  class_value, repo_value, registered, repo_registry, classify_repo,
}

-- The default matrix decides on the capability in both repositories, and in the second no more
-- permissively.
pub AreOrdered : CapabilityClass → RepoClassification → RepoClassification → Type 0
AreOrdered c repo other =
    (r r' : MatrixResult) × (matrix_lookup default_matrix c repo ≡ ok r)
    × (matrix_lookup default_matrix c other ≡ ok r')
    × (decision_rank r.decision ≤ decision_rank r'.decision)

untrusted-AreOrdered :
    (c : CapabilityClass) (repo : RepoClassification) → AreOrdered c repo untrusted_external
unfolding AreOrdered matrix_lookup default_matrix rows_of is_untrusted row_at class_value repo_value
    decision_rank
untrusted-AreOrdered observation trusted_internal = (_, _, refl, refl, omega arith)
untrusted-AreOrdered observation untrusted_external = (_, _, refl, refl, omega arith)
untrusted-AreOrdered local_reversible trusted_internal = (_, _, refl, refl, omega arith)
untrusted-AreOrdered local_reversible untrusted_external = (_, _, refl, refl, omega arith)
untrusted-AreOrdered local_consequential trusted_internal = (_, _, refl, refl, omega arith)
untrusted-AreOrdered local_consequential untrusted_external = (_, _, refl, refl, omega arith)
untrusted-AreOrdered external_reversible trusted_internal = (_, _, refl, refl, omega arith)
untrusted-AreOrdered external_reversible untrusted_external = (_, _, refl, refl, omega arith)
untrusted-AreOrdered external_consequential trusted_internal = (_, _, refl, refl, omega arith)
untrusted-AreOrdered external_consequential untrusted_external = (_, _, refl, refl, omega arith)
untrusted-AreOrdered prohibited trusted_internal = (_, _, refl, refl, omega arith)
untrusted-AreOrdered prohibited untrusted_external = (_, _, refl, refl, omega arith)

unknown :
    (name : String) → registered name repo_registry ≡ none → classify_repo name ≡ untrusted_external
unfolding classify_repo
unknown name h = ap (λ o. elim o [ some r ↦ r | none ↦ untrusted_external ]) h

-- A repository that the registry does not name is never handled more permissively than any other:
-- the default matrix decides on every capability in both, and its decision in the unknown one is at
-- least as restrictive.
pub classify_repo-AreOrdered :
    (c : CapabilityClass) (name other : String)
    → registered name repo_registry ≡ none
    → AreOrdered c (classify_repo other) (classify_repo name)
classify_repo-AreOrdered c name other h =
    subst (AreOrdered c (classify_repo other)) (sym (unknown name h))
      (untrusted-AreOrdered c (classify_repo other))
