-- ===== src/Review/Findings/Parse.antt =====
-- src/anse_harness/review/findings.py: `findings_from_text` and `conclusion_from_text`. `json.loads`,
-- with `none` for a `JSONDecodeError`, is an argument.
pub mod Reported
use ai_native_sweng.Prelude.{
  ℕ, suc, String, Option, some, none, List, [], ◌∷◌, Result, ok, err, finding_schema_error,
  contains, concat, decimal, ◌>>=◌, ◌==◌, if◌then◌else◌, map, strip, splitlines,
}
use ai_native_sweng.Json.Value.{Json, str, obj, Dict, object, lookup}
use ai_native_sweng.Json.Convert.{Builtins, get_or, as_str, as_dict}
use ai_native_sweng.Review.Findings.{ReviewFinding, proposed, finding_evidence}

abbrev pub finding_categories : List String
finding_categories =
    "correctness" ∷ "security" ∷ "performance" ∷ "maintainability" ∷ "tests" ∷ "architecture" ∷ []

abbrev pub finding_severities : List String
finding_severities = "critical" ∷ "high" ∷ "medium" ∷ "low" ∷ []

abbrev pub finding_confidences : List String
finding_confidences = "high" ∷ "medium" ∷ "low" ∷ []

abbrev pub review_conclusions : List String
review_conclusions = "approved" ∷ "changes_required" ∷ "insufficient_evidence" ∷ []

-- the lines of the text, each stripped
unfoldable pub stripped_lines : String → List String
unfolding strip splitlines
stripped_lines text = map strip (splitlines text)

-- data[key], where a missing key is reported as a schema error
unfoldable pub required : Dict → String → Result Json
unfolding lookup
required d k = elim (lookup k d) [ some v ↦ ok v | none ↦ err finding_schema_error ]

-- _validated_vocabulary
unfoldable pub validated_vocabulary : String → List String → Result String
validated_vocabulary value allowed =
    if contains allowed value then ok value else err finding_schema_error

-- the object of one line, or a schema error
unfoldable pub line_object : Option Json → Result Dict
line_object (some (obj d)) = ok d
line_object _ = err finding_schema_error

-- `s[len(p):]` where s.startswith(p)
unfoldable pub after_prefix : String → String → Option String
after_prefix String.[] s = some s
after_prefix (String.◌∷◌ c p) String.[] = none
after_prefix (String.◌∷◌ c p) (String.◌∷◌ d s) =
    let rest = after_prefix p s in
    if String.◌∷◌ c String.[] == String.◌∷◌ d String.[] then rest else none

module _ (py : Builtins) (loads : String → Option Json) (reviewer_type prefix : String) where
  -- the finding of one line, as the `n`-th of the report
  unfoldable pub finding_of : ℕ → String → Result ReviewFinding
  finding_of n raw = do
    data' ← line_object (loads raw)
    category_raw ← required data' "category"
    severity_raw ← required data' "severity"
    confidence_raw ← required data' "confidence"
    summary ← required data' "summary"
    deduplication_key ← required data' "deduplication_key"
    category ← validated_vocabulary (as_str py category_raw) finding_categories
    severity ← validated_vocabulary (as_str py severity_raw) finding_severities
    confidence ← validated_vocabulary (as_str py confidence_raw) finding_confidences
    evidence_raw ← as_dict py (get_or data' "evidence" (object []))
    evidence ← finding_evidence py evidence_raw
    ok (record {
      finding_id = concat (prefix ∷ "-" ∷ decimal n ∷ []);
      reviewer_type = reviewer_type;
      category = category;
      severity = severity;
      confidence = confidence;
      summary = as_str py summary;
      evidence = evidence;
      impact = as_str py (get_or data' "impact" (str ""));
      recommended_action = as_str py (get_or data' "recommended_action" (str ""));
      deduplication_key = as_str py deduplication_key;
      status = proposed;
    })

  -- the loop over the lines, with `n` for the next finding
  unfoldable pub findings_from : ℕ → List String → Result (List ReviewFinding)
  findings_from n [] = ok []
  findings_from n (line ∷ rest) = elim (after_prefix "FINDING: " line) [
    | none ↦ findings_from n rest
    | some raw ↦ do f ← finding_of n raw; fs ← findings_from (suc n) rest; ok (f ∷ fs)
  ]

  -- findings_from_text
  unfoldable pub findings_from_text : String → Result (List ReviewFinding)
  unfolding findings_from
  findings_from_text text = findings_from 1 (stripped_lines text)

-- the value of one conclusion line
unfoldable pub conclusion_of : String → String
conclusion_of raw =
    if contains review_conclusions (strip raw) then strip raw else "insufficient_evidence"

-- the loop over the lines, with the conclusion so far
unfoldable pub conclusion_from : String → List String → String
conclusion_from conclusion [] = conclusion
conclusion_from conclusion (line ∷ rest) = elim (after_prefix "CONCLUSION: " line) [
  | none ↦ conclusion_from conclusion rest
  | some raw ↦ conclusion_from (conclusion_of raw) rest
]

-- conclusion_from_text
unfoldable pub conclusion_from_text : String → String
unfolding conclusion_from
conclusion_from_text text = conclusion_from "insufficient_evidence" (stripped_lines text)
