-- ===== src/Review/Findings/RoundTrip.antt =====
-- Findings are read back as they were written.
use ai_native_sweng.Prelude.{◌≡◌, refl, ok}
use ai_native_sweng.Json.Convert.{Builtins, as_strings-strings, reading}
use ai_native_sweng.Review.Findings.{
  ReviewFinding, FindingStatus, proposed, accepted, rejected, duplicate, fixed, unresolved,
  escalated, status_value, finding_status, finding_payload, review_finding,
}

pub finding_status-status_value : (x : FindingStatus) → finding_status (status_value x) ≡ ok x
unfolding finding_status
finding_status-status_value proposed = refl
finding_status-status_value accepted = refl
finding_status-status_value rejected = refl
finding_status-status_value duplicate = refl
finding_status-status_value fixed = refl
finding_status-status_value unresolved = refl
finding_status-status_value escalated = refl

module _ (py : Builtins) where
  -- A finding is read back from its payload unchanged, its evidence and status included.
  pub review_finding-finding_payload :
      (r : ReviewFinding) → review_finding py (finding_payload r) ≡ ok r
  unfolding review_finding finding_payload reading
  review_finding-finding_payload r =
      simp (as_strings-strings py, finding_status-status_value r.status)
