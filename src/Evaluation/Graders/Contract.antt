-- ===== src/Evaluation/Graders/Contract.antt =====
-- What a grade says of the grader's process, and that a result survives being written.
use ai_native_sweng.Prelude.{
  zero, suc, String, Bool, true, false, Option, none, some, List, [], ◌∷◌, ◌≡◌, ◌≢◌, refl, ok,
  Error, arith, ◌↔◌, ◌∙◌, sym, concat,
}
use ai_native_sweng.Json.Value.{ℤ, pos, negsuc, Float}
use ai_native_sweng.Json.Convert.{Builtins, optional_bool, optional_int, reading}
use ai_native_sweng.Evaluation.Graders.{
  GraderResult, is_none, checked_result, result_payload, grader_result, result_from_exit_code,
  infrastructure_result, Ran, ended, os_error, timeout_expired, raised, CommandGrader, argv, judged,
  grade, same_int,
}

-- The exit code with which the process ended, if it did.
unfoldable pub exit_of : Ran → Option ℤ
exit_of (ended code out error_out) = some code
exit_of (os_error text) = none
exit_of (timeout_expired text) = none
exit_of (raised e) = none

-- The verdict that an exit code stands for.
unfoldable pub verdict : Option ℤ → Option Bool
verdict none = none
verdict (some (pos zero)) = some true
verdict (some (pos (suc zero))) = some false
verdict (some (pos (suc (suc n)))) = none
verdict (some (negsuc n)) = none

pub reading_result :
    (py : Builtins) (r : GraderResult) → grader_result py (result_payload r) ≡ checked_result r
unfolding grader_result result_payload reading
reading_result py r = simp (optional_bool, optional_int py)

abbrev result : CommandGrader → Option ℤ → String → Option Bool → GraderResult
result g code out v = record {
  grader_id = g.grader_id;
  grader_version = g.version;
  passed = v;
  exit_code = code;
  output = out;
  infrastructure = is_none v;
}

-- A grade of a process that ended so.
pub record IsGradeOf (py : Builtins) (g : CommandGrader) (ran : Ran) (r : GraderResult)
    : Type 0 where
  pub exit : r.exit_code ≡ exit_of ran
  pub passed : r.passed ≡ verdict (exit_of ran)
  pub infrastructure : (r.infrastructure ≡ true) ↔ (verdict (exit_of ran) ≡ none)
  pub identity : (r.grader_id ≡ g.grader_id) × (r.grader_version ≡ g.version)
  pub written : grader_result py (result_payload r) ≡ ok r

module _ (py : Builtins) (g : CommandGrader) where
  -- A result that its constructor accepts, with the verdict of the exit code.
  made :
      (ran : Ran) (code : Option ℤ) (out : String) (v : Option Bool)
      → code ≡ exit_of ran
      → v ≡ verdict (exit_of ran)
      → IsGradeOf py g ran (result g code out v)
  unfolding checked_result
  made ran code out none p q = record {
    exit = p;
    passed = q;
    infrastructure = ((λ _. sym q), (λ _. refl));
    identity = (refl, refl);
    written = reading_result py _ ∙ refl;
  }
  made ran code out (some b) p q = record {
    exit = p;
    passed = q;
    infrastructure = ((λ e. absurd (grind (arith, e))), (λ e. absurd (ground (arith, q, e))));
    identity = (refl, refl);
    written = reading_result py _ ∙ refl;
  }

  judged-IsGradeOf :
      (ran : Ran)
      → ((e : Error) → ran ≢ raised e)
      → (r : GraderResult) × (judged g ran ≡ ok r) × IsGradeOf py g ran r
  unfolding judged result_from_exit_code infrastructure_result checked_result same_int exit_of
      verdict
  judged-IsGradeOf (ended (pos zero) out error_out) h = (_, refl, made _ _ _ _ refl refl)
  judged-IsGradeOf (ended (pos (suc zero)) out error_out) h = (_, refl, made _ _ _ _ refl refl)
  judged-IsGradeOf (ended (pos (suc (suc n))) out error_out) h = (
    result g (some (pos (suc (suc n)))) (concat (out ∷ error_out ∷ [])) none,
    ground arith,
    made _ _ _ _ refl refl,
  )
  judged-IsGradeOf (ended (negsuc n) out error_out) h = (_, refl, made _ _ _ _ refl refl)
  judged-IsGradeOf (os_error text) h = (_, refl, made _ _ _ _ refl refl)
  judged-IsGradeOf (timeout_expired text) h = (_, refl, made _ _ _ _ refl refl)
  judged-IsGradeOf (raised e) h = absurd (h e refl)

  -- A command grader raises nothing of its own, whatever the program does. Unless the process call
  -- raises what the grader does not handle, it returns a result with the grader's identity and the
  -- process's exit code, if it ended; that passes for exit code 0, fails for 1, and has no verdict
  -- and is marked as infrastructure in every other case; and that is read back from its payload.
  pub grade_lem :
      (run : List String → String → Float → Ran) (workdir : String)
      → ((e : Error) → run (argv g) workdir g.timeout_seconds ≢ raised e)
      → (r : GraderResult) × (grade run g workdir ≡ ok r)
        × IsGradeOf py g (run (argv g) workdir g.timeout_seconds) r
  unfolding grade
  grade_lem run workdir h = judged-IsGradeOf (run (argv g) workdir g.timeout_seconds) h
