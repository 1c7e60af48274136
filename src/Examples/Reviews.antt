-- ===== src/Examples/Reviews.antt =====
-- A reviewer's answer with one finding.
use ai_native_sweng.Prelude.{
  String, Option, some, List, [], ◌∷◌, ◌≡◌, refl, contains, length, concat, decimal,
}
use ai_native_sweng.Json.Value.{items, Json, str, object}
use ai_native_sweng.Json.Convert.{as_strings, reading}
use ai_native_sweng.Review.Findings.{ReviewFinding, proposed, finding_evidence}
use ai_native_sweng.Review.Findings.Parse.{
  findings_from, findings_from_text, stripped_lines, finding_of, after_prefix, required,
  validated_vocabulary, line_object,
}
use ai_native_sweng.Review.Findings.Parse.Reported.{AreProposed, reports, findings_from_text_lem}
use ai_native_sweng.Examples.Boundary.{strict}

abbrev answer : String
answer = "I looked at the parser.\n  FINDING: {...} \r\nCONCLUSION: changes_required"

abbrev loads : String → Option Json
loads raw = some (
    object (
      ("category", str "security")
      ∷ ("severity", str "high")
      ∷ ("confidence", str "medium")
      ∷ ("summary", str "the path is not checked")
      ∷ ("deduplication_key", str "parser-open")
      ∷ []))

abbrev found : List ReviewFinding
found =
    record {
      finding_id = "r-1";
      reviewer_type = "security";
      category = "security";
      severity = "high";
      confidence = "medium";
      summary = "the path is not checked";
      evidence = record { files = []; lines = []; tests = []; reasoning = "" };
      impact = "";
      recommended_action = "";
      deduplication_key = "parser-open";
      status = proposed;
    }
    ∷ []

findings_from_text_lem_example :
    AreProposed "security" "r" 1 found × (length found ≡ reports (stripped_lines answer))
unfolding findings_from_text stripped_lines findings_from finding_of after_prefix required
    validated_vocabulary line_object contains finding_evidence as_strings reading concat decimal
    items
findings_from_text_lem_example =
    findings_from_text_lem "security" "r" strict loads answer found refl
