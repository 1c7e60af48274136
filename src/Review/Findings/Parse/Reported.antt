-- ===== src/Review/Findings/Parse/Reported.antt =====
-- What a reviewer's answer that parses has reported: nothing is lost and nothing is invented.
use ai_native_sweng.Prelude.{
  ℕ, suc, if◌then◌else◌, String, Bool, true, false, Option, some, none, List, [], ◌∷◌, ◌++◌, ◌≡◌,
  refl, Result, ok, err, contains, concat, decimal, length, arith, All, ap, ◌∙◌, strip,
}
use ai_native_sweng.Json.Value.{Json}
use ai_native_sweng.Json.Convert.{Builtins}
use ai_native_sweng.Review.Findings.{ReviewFinding, proposed}
use ai_native_sweng.Review.Findings.Parse.{
  finding_categories, finding_severities, finding_confidences, review_conclusions,
  validated_vocabulary, after_prefix, stripped_lines, finding_of, findings_from, findings_from_text,
  conclusion_of, conclusion_from, conclusion_from_text,
}

-- the number of lines that report a finding
unfoldable pub reports : List String → ℕ
reports [] = 0
reports (line ∷ rest) = elim (after_prefix "FINDING: " line) [
  | none ↦ reports rest
  | some raw ↦ suc (reports rest)
]

validated_vocabulary-contains :
    (value v : String) (allowed : List String)
    → validated_vocabulary value allowed ≡ ok v
    → contains allowed v ≡ true
unfolding validated_vocabulary
validated_vocabulary-contains value v allowed h = ground arith

module _ (reviewer_type prefix : String) where
  -- A new finding of the reviewer, in the canonical vocabulary, with the `n`-th id.
  pub record IsProposed (n : ℕ) (f : ReviewFinding) : Type 0 where
    pub id_of : f.finding_id ≡ concat (prefix ∷ "-" ∷ decimal n ∷ [])
    pub reviewer : f.reviewer_type ≡ reviewer_type
    pub category_known : contains finding_categories f.category ≡ true
    pub severity_known : contains finding_severities f.severity ≡ true
    pub confidence_known : contains finding_confidences f.confidence ≡ true
    pub status_proposed : f.status ≡ proposed

  -- The findings of a report whose ids start at `n`.
  unfoldable pub AreProposed : ℕ → List ReviewFinding → Type 0
  AreProposed n [] = Unit
  AreProposed n (f ∷ fs) = IsProposed n f × AreProposed (suc n) fs

  module _ (py : Builtins) (loads : String → Option Json) where
    finding_of-IsProposed :
        (n : ℕ) (raw : String) (f : ReviewFinding)
        → finding_of py loads reviewer_type prefix n raw ≡ ok f
        → IsProposed n f
    unfolding finding_of
    finding_of-IsProposed n raw f h = grind (arith, validated_vocabulary-contains)

    Report : ℕ → List String → List ReviewFinding → Type 0
    Report n lines fs = AreProposed n fs × (length fs ≡ reports lines)

    findings_from-Report :
        (n : ℕ) (lines : List String) (fs : List ReviewFinding)
        → findings_from py loads reviewer_type prefix n lines ≡ ok fs
        → Report n lines fs
    unfolding findings_from reports AreProposed Report
    findings_from-Report n [] [] h = (tt, refl)
    findings_from-Report n [] (f ∷ fs) h = ground arith
    findings_from-Report n (line ∷ rest) fs h =
        by_prefix (λ m gs. findings_from-Report m rest gs) (after_prefix "FINDING: " line) refl
      where
        by_prefix :
            ((m : ℕ) (gs : List ReviewFinding)
              → findings_from py loads reviewer_type prefix m rest ≡ ok gs
              → Report m rest gs)
            → (o : Option String) → after_prefix "FINDING: " line ≡ o
            → Report n (line ∷ rest) fs
        by_prefix ih none e = ground (arith, ih n fs)
        by_prefix ih (some raw) e =
            by_finding (finding_of py loads reviewer_type prefix n raw) refl
              (findings_from py loads reviewer_type prefix (suc n) rest) refl
          where
            by_finding :
                (m : Result ReviewFinding)
                → finding_of py loads reviewer_type prefix n raw ≡ m
                → (ms : Result (List ReviewFinding))
                → findings_from py loads reviewer_type prefix (suc n) rest ≡ ms
                → Report n (line ∷ rest) fs
            by_finding (ok f) p (ok gs) q =
                ground (arith, finding_of-IsProposed n raw f, ih (suc n) gs)
            by_finding (ok f) p (err x) q = ground arith
            by_finding (err x) p ms q = ground arith

    -- Where an answer parses, there are as many findings as its lines report, and they are the
    -- reviewer's, proposed, in the canonical vocabularies and numbered from 1.
    pub findings_from_text_lem :
        (text : String) (fs : List ReviewFinding)
        → findings_from_text py loads reviewer_type prefix text ≡ ok fs
        → AreProposed 1 fs × (length fs ≡ reports (stripped_lines text))
    unfolding findings_from_text Report
    findings_from_text_lem text fs h = findings_from-Report 1 (stripped_lines text) fs h

-- no line states a conclusion
unfoldable pub AreSilent : List String → Type 0
AreSilent lines = All (λ line. after_prefix "CONCLUSION: " line ≡ none) lines

conclusion_of-known : (raw : String) → contains review_conclusions (conclusion_of raw) ≡ true
unfolding conclusion_of contains
conclusion_of-known raw = by_test (contains review_conclusions (strip raw)) refl
  where
    by_test :
        (b : Bool)
        → contains review_conclusions (strip raw) ≡ b
        → contains review_conclusions (if b then strip raw else "insufficient_evidence") ≡ true
    by_test true e = e
    by_test false e = refl

conclusion_from-known :
    (c : String) (lines : List String)
    → contains review_conclusions c ≡ true
    → contains review_conclusions (conclusion_from c lines) ≡ true
unfolding conclusion_from
conclusion_from-known c [] h = h
conclusion_from-known c (line ∷ rest) h =
    by_prefix (λ d k. conclusion_from-known d rest k) (after_prefix "CONCLUSION: " line)
  where
    by_prefix :
        ((d : String)
          → contains review_conclusions d ≡ true
          → contains review_conclusions (conclusion_from d rest) ≡ true)
        → (o : Option String)
        → contains review_conclusions (elim o [
          | none ↦ conclusion_from c rest
          | some raw ↦ conclusion_from (conclusion_of raw) rest
        ])
          ≡ true
    by_prefix ih none = ih c h
    by_prefix ih (some raw) = ih (conclusion_of raw) (conclusion_of-known raw)

conclusion_from-silent :
    (c : String) (lines : List String) → AreSilent lines → conclusion_from c lines ≡ c
unfolding conclusion_from AreSilent
conclusion_from-silent c [] h = refl
conclusion_from-silent c (line ∷ rest) h = ground (arith, conclusion_from-silent c rest h.1, h.0)

conclusion_from-last :
    (c : String) (before after : List String) (line raw : String)
    → after_prefix "CONCLUSION: " line ≡ some raw
    → AreSilent after
    → conclusion_from c (before ++ line ∷ after) ≡ conclusion_of raw
unfolding conclusion_from
conclusion_from-last c [] after line raw e h =
    ap
      (λ o. elim o [
        | none ↦ conclusion_from c after
        | some r ↦ conclusion_from (conclusion_of r) after
      ])
      e
    ∙ conclusion_from-silent (conclusion_of raw) after h
conclusion_from-last c (first ∷ before) after line raw e h =
    by_prefix (λ d. conclusion_from-last d before after line raw e h)
      (after_prefix "CONCLUSION: " first)
  where
    by_prefix :
        ((d : String) → conclusion_from d (before ++ line ∷ after) ≡ conclusion_of raw)
        → (o : Option String)
        → elim o [
          | none ↦ conclusion_from c (before ++ line ∷ after)
          | some r ↦ conclusion_from (conclusion_of r) (before ++ line ∷ after)
        ]
          ≡ conclusion_of raw
    by_prefix ih none = ih c
    by_prefix ih (some r) = ih (conclusion_of r)

-- Where a line states a conclusion and no later line does, that line decides: the conclusion is
-- its value, if that is a canonical conclusion, and is a canonical one in any case.
pub conclusion_from_text-last :
    (text : String) (before after : List String) (line raw : String)
    → stripped_lines text ≡ before ++ line ∷ after
    → after_prefix "CONCLUSION: " line ≡ some raw
    → AreSilent after
    → (conclusion_from_text text
        ≡ (if contains review_conclusions (strip raw) then strip raw else "insufficient_evidence"))
      × (contains review_conclusions (conclusion_from_text text) ≡ true)
unfolding conclusion_from_text contains conclusion_of
conclusion_from_text-last text before after line raw split e silent = (
  ap (conclusion_from "insufficient_evidence") split
      ∙ conclusion_from-last "insufficient_evidence" before after line raw e silent,
  conclusion_from-known "insufficient_evidence" (stripped_lines text) refl,
)

-- Where no line states a conclusion, it is that the evidence is insufficient.
pub conclusion_from_text-silent :
    (text : String)
    → AreSilent (stripped_lines text)
    → conclusion_from_text text ≡ "insufficient_evidence"
unfolding conclusion_from_text
conclusion_from_text-silent text h =
    conclusion_from-silent "insufficient_evidence" (stripped_lines text) h
