-- ===== src/Review/Findings.antt =====
-- src/anse_harness/review/findings.py: the review findings, as data.
pub mod RoundTrip
pub mod Parse
use ai_native_sweng.Prelude.{
  String, Bool, List, [], ◌∷◌, Result, ok, member, ◌>>=◌, not, ◌||◌, ◌==◌, nonempty,
}
use ai_native_sweng.Json.Value.{str, obj, Dict, dict, object, array, strings}
use ai_native_sweng.Json.Convert.{Builtins, index, get_or, as_str, as_dict, as_strings}

pub data FindingStatus : Type 0 where
  proposed accepted rejected duplicate fixed unresolved escalated : FindingStatus

unfoldable pub status_value : FindingStatus → String
status_value proposed = "proposed"
status_value accepted = "accepted"
status_value rejected = "rejected"
status_value duplicate = "duplicate"
status_value fixed = "fixed"
status_value unresolved = "unresolved"
status_value escalated = "escalated"

abbrev finding_statuses : List FindingStatus
finding_statuses = proposed ∷ accepted ∷ rejected ∷ duplicate ∷ fixed ∷ unresolved ∷ escalated ∷ []

-- FindingStatus(value)
unfoldable pub finding_status : String → Result FindingStatus
unfolding member status_value
finding_status = member status_value finding_statuses

pub record FindingEvidence : Type 0 where
  pub files : List String
  pub lines : List String
  pub tests : List String
  pub reasoning : String

-- FindingEvidence.is_empty
unfoldable pub is_empty : FindingEvidence → Bool
is_empty e =
    not (nonempty e.files || nonempty e.lines || nonempty e.tests || not (e.reasoning == ""))

pub record ReviewFinding : Type 0 where
  pub finding_id : String
  pub reviewer_type : String
  pub category : String
  pub severity : String
  pub confidence : String
  pub summary : String
  pub evidence : FindingEvidence
  pub impact : String
  pub recommended_action : String
  pub deduplication_key : String
  pub status : FindingStatus

-- ReviewFinding.with_status
unfoldable pub with_status : ReviewFinding → FindingStatus → ReviewFinding
with_status r status = record r { status = status }

-- FindingEvidence.to_payload
unfoldable pub evidence_payload : FindingEvidence → Dict
evidence_payload r = dict (
    ("files", strings r.files)
    ∷ ("lines", strings r.lines)
    ∷ ("tests", strings r.tests)
    ∷ ("reasoning", str r.reasoning)
    ∷ [])

-- ReviewFinding.to_payload
unfoldable pub finding_payload : ReviewFinding → Dict
unfolding evidence_payload
finding_payload r = dict (
    ("finding_id", str r.finding_id)
    ∷ ("reviewer_type", str r.reviewer_type)
    ∷ ("category", str r.category)
    ∷ ("severity", str r.severity)
    ∷ ("confidence", str r.confidence)
    ∷ ("summary", str r.summary)
    ∷ ("evidence", obj (evidence_payload r.evidence))
    ∷ ("impact", str r.impact)
    ∷ ("recommended_action", str r.recommended_action)
    ∷ ("deduplication_key", str r.deduplication_key)
    ∷ ("status", str (status_value r.status))
    ∷ [])

module _ (py : Builtins) where
  -- FindingEvidence.from_payload
  unfoldable pub finding_evidence : Dict → Result FindingEvidence
  finding_evidence d = do
    files ← as_strings py (get_or d "files" (array []))
    lines ← as_strings py (get_or d "lines" (array []))
    tests ← as_strings py (get_or d "tests" (array []))
    ok (record {
      files = files;
      lines = lines;
      tests = tests;
      reasoning = as_str py (get_or d "reasoning" (str ""));
    })

  -- ReviewFinding.from_payload
  unfoldable pub review_finding : Dict → Result ReviewFinding
  unfolding finding_evidence
  review_finding d = do
    finding_id_raw ← index d "finding_id"
    reviewer_type_raw ← index d "reviewer_type"
    category_raw ← index d "category"
    severity_raw ← index d "severity"
    confidence_raw ← index d "confidence"
    summary_raw ← index d "summary"
    evidence_dict ← as_dict py (get_or d "evidence" (object []))
    evidence ← finding_evidence evidence_dict
    deduplication_key_raw ← index d "deduplication_key"
    status ← finding_status (as_str py (get_or d "status" (str "proposed")))
    ok (record {
      finding_id = as_str py finding_id_raw;
      reviewer_type = as_str py reviewer_type_raw;
      category = as_str py category_raw;
      severity = as_str py severity_raw;
      confidence = as_str py confidence_raw;
      summary = as_str py summary_raw;
      evidence = evidence;
      impact = as_str py (get_or d "impact" (str ""));
      recommended_action = as_str py (get_or d "recommended_action" (str ""));
      deduplication_key = as_str py deduplication_key_raw;
      status = status;
    })
