-- ===== src/Evaluation/Graders.antt =====
-- src/anse_harness/evaluation/graders.py: the grader's result, the exit-code contract and
-- CommandGrader. The process that a grader starts and the hash of a script are arguments.
pub mod Contract
use ai_native_sweng.Prelude.{
  String, Bool, true, false, Option, none, some, List, [], ◌∷◌, ◌++◌, Result, ok, err, value_error,
  Error, ◌>>=◌, guard, concat, ◌>>◌, if◌then◌else◌, eqb,
}
use ai_native_sweng.Json.Value.{ℤ, pos, negsuc, Float, bool, int, str, Dict, dict, optional}
use ai_native_sweng.Json.Convert.{Builtins, index, truthy, as_str, as_int, optional_of}

pub record GraderResult : Type 0 where
  pub grader_id : String
  pub grader_version : String
  pub passed : Option Bool
  pub exit_code : Option ℤ
  pub output : String
  pub infrastructure : Bool

-- passed is None
abbrev pub is_none {ℓ} : {A : Type ℓ} → Option A → Bool
is_none none = true
is_none (some x) = false

-- a == b, for bools
abbrev pub agree : Bool → Bool → Bool
agree true b = b
agree false true = false
agree false false = true

-- GraderResult.__post_init__, as a constructor that may raise
unfoldable pub checked_result : GraderResult → Result GraderResult
checked_result r = do guard (agree r.infrastructure (is_none r.passed)) value_error; ok r

-- GraderResult.to_payload
unfoldable pub result_payload : GraderResult → Dict
result_payload r = dict (
    ("grader_id", str r.grader_id)
    ∷ ("grader_version", str r.grader_version)
    ∷ ("passed", optional bool r.passed)
    ∷ ("exit_code", optional int r.exit_code)
    ∷ ("output", str r.output)
    ∷ ("infrastructure", bool r.infrastructure)
    ∷ [])

-- GraderResult.from_payload
module _ (py : Builtins) where
  unfoldable pub grader_result : Dict → Result GraderResult
  unfolding optional_of as_int truthy
  grader_result d = do
    grader_id_raw ← index d "grader_id"
    grader_version_raw ← index d "grader_version"
    passed_raw ← index d "passed"
    passed ← optional_of (λ v. ok (truthy v)) passed_raw
    exit_code_raw ← index d "exit_code"
    exit_code ← optional_of (as_int py) exit_code_raw
    output_raw ← index d "output"
    infrastructure_raw ← index d "infrastructure"
    checked_result (record {
      grader_id = as_str py grader_id_raw;
      grader_version = as_str py grader_version_raw;
      passed = passed;
      exit_code = exit_code;
      output = as_str py output_raw;
      infrastructure = truthy infrastructure_raw;
    })

abbrev pub grade_pass : ℤ
grade_pass = pos 0

abbrev pub grade_fail : ℤ
grade_fail = pos 1

-- a == b, for ints
unfoldable pub same_int : ℤ → ℤ → Bool
same_int (pos m) (pos n) = eqb m n
same_int (negsuc m) (negsuc n) = eqb m n
same_int _ _ = false

unfoldable pub result_from_exit_code : String → String → ℤ → String → Result GraderResult
unfolding checked_result same_int
result_from_exit_code id version code out =
    if same_int code grade_pass
    then checked_result (record {
      grader_id = id;
      grader_version = version;
      passed = some true;
      exit_code = some code;
      output = out;
      infrastructure = false;
    })
    else if same_int code grade_fail
    then checked_result (record {
      grader_id = id;
      grader_version = version;
      passed = some false;
      exit_code = some code;
      output = out;
      infrastructure = false;
    })
    else checked_result (record {
      grader_id = id;
      grader_version = version;
      passed = none;
      exit_code = some code;
      output = out;
      infrastructure = true;
    })

unfoldable pub infrastructure_result : String → String → String → Result GraderResult
unfolding checked_result
infrastructure_result id version detail = checked_result (record {
  grader_id = id;
  grader_version = version;
  passed = none;
  exit_code = none;
  output = detail;
  infrastructure = true;
})

-- What `subprocess.run` does: the process ends, or the call raises OSError or TimeoutExpired, with
-- the text of the exception, or anything else.
pub data Ran : Type 0 where
  ended : (returncode : ℤ) (stdout stderr : String) → Ran
  os_error timeout_expired : (text : String) → Ran
  raised : Error → Ran

-- The program's path is a text; a workdir is one as well.
pub record CommandGrader : Type 0 where
  pub grader_id : String
  pub script : String
  pub interpreter : List String
  pub args : List String
  pub timeout_seconds : Float
  pub version : String

-- CommandGrader.__init__: `resolve` is `Path.resolve`, `version_of` the hash of the file's bytes.
unfoldable pub command_grader :
    (resolve : String → String) (version_of : String → Result String)
    → String
    → String
    → List String
    → List String
    → Float
    → Result CommandGrader
command_grader resolve version_of id path interpreter args timeout = do
  version ← version_of path
  ok (record {
    grader_id = id;
    script = resolve path;
    interpreter = interpreter;
    args = args;
    timeout_seconds = timeout;
    version = version;
  })

abbrev pub argv : CommandGrader → List String
argv g = g.interpreter ++ g.script ∷ g.args

-- the handlers of `subprocess.run` and what follows it
unfoldable pub judged : CommandGrader → Ran → Result GraderResult
unfolding concat infrastructure_result result_from_exit_code
judged g (ended code out error_out) =
    result_from_exit_code g.grader_id g.version code (concat (out ∷ error_out ∷ []))
judged g (os_error text) =
    infrastructure_result g.grader_id g.version (concat ("grader could not run: " ∷ text ∷ []))
judged g (timeout_expired text) =
    infrastructure_result g.grader_id g.version (concat ("grader could not run: " ∷ text ∷ []))
judged g (raised e) = err e

-- CommandGrader.grade: `run` is given the argv, the working directory and the timeout.
unfoldable pub grade :
    (run : List String → String → Float → Ran) → CommandGrader → String → Result GraderResult
unfolding judged
grade run g workdir = judged g (run (argv g) workdir g.timeout_seconds)
