-- ===== src/Workflow/Orchestrator/Artifacts/Distinct.antt =====
-- The names of the artifacts tell the invocations apart: a number ends them, after the last hyphen.
use Prim.Native.Char.{Char, code}
use Prim.Native.String.{◌++◌}
use mathlib.Core.Path.{ap₂}
use text.Mathlib.TextLemmas.{
  nil-append, append-nil, append_assoc, cons-append, append_cancel_left, head-eq_of_cons-eq,
  tail-eq_of_cons-eq,
}
use ai_native_sweng.Prelude.{
  ℕ, zero, suc, ◌+◌, String, if◌then◌else◌, eqb, ◌≡◌, refl, ap, sym, ◌∙◌, arith, [], ◌∷◌, concat,
  List, ◌⊎◌, member, ok, decimal, decimal-injective, decimal_from, digit, ltb, ◌/◌, ◌%◌, Bool-cases,
  inl, inr,
}
use ai_native_sweng.Workflow.Orchestrator.{
  MultiStage, intake, fan_out, integrate, validate, review, consolidate, fix, prepare_result,
  completed, failed, cancelled, escalated, stage_value,
}
use ai_native_sweng.Workflow.Orchestrator.Artifacts.{
  worker_patch_artifact_id, worker_validation_artifact_id, invocation_artifact_id,
  findings_artifact_id, integrated_validation_artifact_id,
}
use ai_native_sweng.Json.Value.{pos}
use ai_native_sweng.Json.Convert.{int_text}

-- how many hyphens a text has
hyphens : String → ℕ
hyphens String.[] = 0
hyphens (String.◌∷◌ c s) = (if eqb (code c) 45 then 1 else 0) + hyphens s

hyphens-append : (s t : String) → hyphens (s ++ t) ≡ hyphens s + hyphens t
unfolding hyphens
hyphens-append String.[] t = rw nil-append (omega arith)
hyphens-append (String.◌∷◌ c s) t = rw cons-append (omega (arith, hyphens-append s t))

hyphens-hyphen : (u : String) → hyphens ("-" ++ u) ≡ suc (hyphens u)
unfolding hyphens
hyphens-hyphen u = hyphens-append "-" u ∙ omega arith

hyphens-digit : (d : ℕ) → hyphens (digit d) ≡ 0
unfolding hyphens digit
hyphens-digit zero = refl
hyphens-digit (suc zero) = refl
hyphens-digit (suc (suc zero)) = refl
hyphens-digit (suc (suc (suc zero))) = refl
hyphens-digit (suc (suc (suc (suc zero)))) = refl
hyphens-digit (suc (suc (suc (suc (suc zero))))) = refl
hyphens-digit (suc (suc (suc (suc (suc (suc zero)))))) = refl
hyphens-digit (suc (suc (suc (suc (suc (suc (suc zero))))))) = refl
hyphens-digit (suc (suc (suc (suc (suc (suc (suc (suc zero)))))))) = refl
hyphens-digit (suc (suc (suc (suc (suc (suc (suc (suc (suc n))))))))) = refl

hyphens-decimal_from : (fuel n : ℕ) (acc : String) → hyphens (decimal_from fuel n acc) ≡ hyphens acc
unfolding decimal_from
hyphens-decimal_from zero n acc = refl
hyphens-decimal_from (suc fuel) n acc = elim (Bool-cases (ltb n 10)) [
  | inl small ↦ rw small (hyphens-append (digit n) acc ∙ omega (arith, hyphens-digit n))
  | inr large ↦ rw large (
      hyphens-decimal_from fuel (n / 10) (digit (n % 10) ++ acc)
      ∙ (hyphens-append (digit (n % 10)) acc ∙ omega (arith, hyphens-digit (n % 10))))
]

hyphens-decimal : (n : ℕ) → hyphens (decimal n) ≡ 0
unfolding decimal hyphens
hyphens-decimal n = hyphens-decimal_from (suc n) n ""

hyphen : Char
hyphen = "-"

-- A text without hyphens does not start after an earlier hyphen.
earlier_hyphen :
    (d : Char) (t u v : String) → hyphens u ≡ 0 → "-" ++ u ≡ String.◌∷◌ d (t ++ ("-" ++ v)) → ⊥
unfolding hyphen
earlier_hyphen d t u v hu e = ground (
  arith,
  hyphens-append t ("-" ++ v),
  hyphens-hyphen v,
  hu,
  ap hyphens (
      tail-eq_of_cons-eq
        (ap (String.◌∷◌ hyphen) (sym (nil-append u)) ∙ (sym (cons-append hyphen "" u) ∙ e))),
)

-- What stands after the last hyphen, and what before it.
last_hyphen :
    (s t u v : String)
    → hyphens u ≡ 0
    → hyphens v ≡ 0
    → s ++ ("-" ++ u) ≡ t ++ ("-" ++ v)
    → (s ≡ t) × (u ≡ v)
last_hyphen String.[] String.[] u v hu hv e =
    (refl, append_cancel_left "-" u v (append_cancel_left "" ("-" ++ u) ("-" ++ v) e))
last_hyphen String.[] (String.◌∷◌ d t) u v hu hv e =
    absurd
      (earlier_hyphen d t u v hu (sym (nil-append ("-" ++ u)) ∙ (e ∙ cons-append d t ("-" ++ v))))
last_hyphen (String.◌∷◌ c s) String.[] u v hu hv e =
    absurd (
      earlier_hyphen c s v u hv
        (sym (nil-append ("-" ++ v)) ∙ (sym e ∙ cons-append c s ("-" ++ u))))
last_hyphen (String.◌∷◌ c s) (String.◌∷◌ d t) u v hu hv e =
    let e' = sym (cons-append c s ("-" ++ u)) ∙ (e ∙ cons-append d t ("-" ++ v)) in
    let (p, q) = last_hyphen s t u v hu hv (tail-eq_of_cons-eq e') in
    (ap₂ String.◌∷◌ (head-eq_of_cons-eq e') p, q)

-- a name that ends in a number
numbered :
    (s t : String) (m n : ℕ) → s ++ ("-" ++ decimal m) ≡ t ++ ("-" ++ decimal n) → (s ≡ t) × (m ≡ n)
numbered s t m n e =
    let (p, q) =
      last_hyphen s t (decimal m) (decimal n) (hyphens-decimal m) (hyphens-decimal n) e in
    (p, decimal-injective m n q)

-- Names of one task, of a worker and a number.
within_task :
    (kind task_id w w' : String) (n n' : ℕ)
    → concat (kind ∷ task_id ∷ "-" ∷ w ∷ "-" ∷ decimal n ∷ [])
      ≡ concat (kind ∷ task_id ∷ "-" ∷ w' ∷ "-" ∷ decimal n' ∷ [])
    → (w ≡ w') × (n ≡ n')
unfolding concat
within_task kind task_id w w' n n' e = numbered w w' n n' (
    append_cancel_left "-" _ _ (
      append_cancel_left task_id _ _
        (append_cancel_left kind _ _ (sym (parts w n) ∙ (e ∙ parts w' n')))))
  where
    parts :
        (v : String) (m : ℕ)
        → concat (kind ∷ task_id ∷ "-" ∷ v ∷ "-" ∷ decimal m ∷ [])
          ≡ kind ++ (task_id ++ ("-" ++ (v ++ ("-" ++ decimal m))))
    parts v m = rw append-nil refl

stages : List MultiStage
stages =
    intake ∷ fan_out ∷ integrate ∷ validate ∷ review ∷ consolidate ∷ fix ∷ prepare_result
    ∷ completed ∷ failed ∷ cancelled ∷ escalated ∷ []

member-stage_value : (x : MultiStage) → member stage_value stages (stage_value x) ≡ ok x
unfolding stages stage_value member
member-stage_value intake = refl
member-stage_value fan_out = refl
member-stage_value integrate = refl
member-stage_value validate = refl
member-stage_value review = refl
member-stage_value consolidate = refl
member-stage_value fix = refl
member-stage_value prepare_result = refl
member-stage_value completed = refl
member-stage_value failed = refl
member-stage_value cancelled = refl
member-stage_value escalated = refl

stage_value-injective : (x y : MultiStage) → stage_value x ≡ stage_value y → x ≡ y
stage_value-injective x y e =
    ground (arith, member-stage_value x, member-stage_value y, ap (member stage_value stages) e)

stage_value-hyphens : (x : MultiStage) → hyphens (stage_value x) ≡ 0
unfolding stage_value hyphens
stage_value-hyphens intake = refl
stage_value-hyphens fan_out = refl
stage_value-hyphens integrate = refl
stage_value-hyphens validate = refl
stage_value-hyphens review = refl
stage_value-hyphens consolidate = refl
stage_value-hyphens fix = refl
stage_value-hyphens prepare_result = refl
stage_value-hyphens completed = refl
stage_value-hyphens failed = refl
stage_value-hyphens cancelled = refl
stage_value-hyphens escalated = refl

-- An invocation record's name tells the worker, the stage and the attempt, which is not negative.
pub invocation_artifact_id-injective :
    (w w' : String) (x x' : MultiStage) (n n' : ℕ)
    → invocation_artifact_id w (stage_value x) (pos n)
      ≡ invocation_artifact_id w' (stage_value x') (pos n')
    → (w ≡ w') × (x ≡ x') × (n ≡ n')
unfolding invocation_artifact_id concat int_text
invocation_artifact_id-injective w w' x x' n n' e =
    let (same, number) =
      numbered (w ++ ("-" ++ stage_value x)) (w' ++ ("-" ++ stage_value x')) n n'
        (append_cancel_left "invocation-" _ _ (sym (parts w x n) ∙ (e ∙ parts w' x' n'))) in
    let (worker, stage) =
      last_hyphen w w' (stage_value x) (stage_value x') (stage_value-hyphens x)
        (stage_value-hyphens x') same in
    (worker, stage_value-injective x x' stage, number)
  where
    parts :
        (v : String) (y : MultiStage) (m : ℕ)
        → invocation_artifact_id v (stage_value y) (pos m)
          ≡ "invocation-" ++ ((v ++ ("-" ++ stage_value y)) ++ ("-" ++ int_text (pos m)))
    parts v y m = rw (append_assoc, append_assoc, append-nil (int_text (pos m))) refl

-- An integrated validation report is named like that of a worker called "integrated".
integrated_parts :
    (task_id : String) (n : ℕ)
    → concat ("validation-" ∷ task_id ∷ "-integrated-" ∷ decimal n ∷ [])
      ≡ concat ("validation-" ∷ task_id ∷ "-" ∷ "integrated" ∷ "-" ∷ decimal n ∷ [])
unfolding concat
integrated_parts task_id n =
    let number = decimal n ++ "" in
    ap (λ t. "validation-" ++ (task_id ++ t))
      (append_assoc "-" ("integrated" ++ "-") number
        ∙ ap (λ t. "-" ++ t) (append_assoc "integrated" "-" number))

-- Within a task, and for attempts, iterations and rounds that are not negative: two patches, two
-- validation reports of workers or two lists of findings with the same name are of the same worker or
-- reviewer and of the same number, whatever hyphens the worker's name has; and where a worker's
-- validation report and an integrated one have the same name, the worker is called "integrated" and
-- the attempt is the round.
pub artifact_ids-injective :
    (task_id w w' : String) (n n' : ℕ)
    → (worker_patch_artifact_id task_id w (pos n) ≡ worker_patch_artifact_id task_id w' (pos n'))
      ⊎ (worker_validation_artifact_id task_id w (pos n)
          ≡ worker_validation_artifact_id task_id w' (pos n'))
      ⊎ (findings_artifact_id task_id w (pos n) ≡ findings_artifact_id task_id w' (pos n'))
      ⊎ ((worker_validation_artifact_id task_id w (pos n)
            ≡ integrated_validation_artifact_id task_id (pos n'))
          × (w' ≡ "integrated"))
    → (w ≡ w') × (n ≡ n')
unfolding worker_patch_artifact_id worker_validation_artifact_id findings_artifact_id
    integrated_validation_artifact_id int_text concat
artifact_ids-injective task_id w w' n n' (inl e) = within_task "patch-" task_id w w' n n' e
artifact_ids-injective task_id w w' n n' (inr (inl e)) =
    within_task "validation-" task_id w w' n n' e
artifact_ids-injective task_id w w' n n' (inr (inr (inl e))) =
    within_task "findings-" task_id w w' n n' e
artifact_ids-injective task_id w w' n n' (inr (inr (inr (e, called)))) =
    let (same, number) =
      within_task "validation-" task_id w "integrated" n n' (e ∙ integrated_parts task_id n') in
    (same ∙ sym called, number)
