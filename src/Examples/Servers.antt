-- ===== src/Examples/Servers.antt =====
-- A grade, an estimate, and the MCP server at concrete messages.
use Prim.Native.String.{◌++◌, len, count}
use ai_native_sweng.Prelude.{
  strip, String, List, [], ◌∷◌, Option, none, some, ◌≡◌, ◌≤◌, ◌<◌, ◌+◌, ◌*◌, ◌==◌, if◌then◌else◌,
  refl, ok, arith, length, inl, inr, concat,
}
use ai_native_sweng.Json.Value.{negsuc, Json, str, obj, Dict, dict, object, Float}
use ai_native_sweng.Json.Convert.{reading}
use ai_native_sweng.Evaluation.Graders.{CommandGrader, GraderResult, Ran, ended, grade}
use ai_native_sweng.Evaluation.Graders.Contract.{IsGradeOf, grade_lem}
use ai_native_sweng.Context.Tokens.{estimate_tokens}
use ai_native_sweng.Context.Tokens.Bounds.{estimate_tokens_bounds}
use ai_native_sweng.Tools.McpRepoServer.{handle, main, answer_to, is_str, error_reply}
use ai_native_sweng.Tools.McpRepoServer.Protocol.{Answers, handle_lem}
use ai_native_sweng.Tools.McpRepoServer.Session.{IsServed, requests, main_lem}
use ai_native_sweng.Examples.Boundary.{strict}

abbrev tests_grader : CommandGrader
tests_grader = record {
  grader_id = "tests";
  script = "/graders/tests.py";
  interpreter = "python" ∷ [];
  args = [];
  timeout_seconds = 0;
  version = "0a1b2c";
}

-- a process that ends with an exit code of its own
abbrev crashing : List String → String → Float → Ran
crashing command workdir timeout = ended (negsuc 10) "" "killed"

grade_lem_example :
    (r : GraderResult) × (grade crashing tests_grader "/work" ≡ ok r)
    × IsGradeOf strict tests_grader (ended (negsuc 10) "" "killed") r
grade_lem_example = grade_lem strict tests_grader crashing "/work" (λ e h. ground (arith, h))

estimate_tokens_bounds_example :
    (count "héllo" ≤ 4 * estimate_tokens "héllo")
    × (estimate_tokens "héllo" ≤ count "héllo")
    × (len "héllo" ≤ 4 * estimate_tokens "héllo")
    × (4 * estimate_tokens "héllo" < len "héllo" + 4)
    × (estimate_tokens "héllo" ≤ estimate_tokens ("héllo" ++ " world"))
    × (estimate_tokens ("héllo" ++ " world") ≤ estimate_tokens "héllo" + estimate_tokens " world")
estimate_tokens_bounds_example = estimate_tokens_bounds "héllo" " world"

abbrev same_text : String → String
same_text s = s

abbrev shutdown : Dict
shutdown = dict (("id", str "7") ∷ ("method", str "shutdown") ∷ [])

handle_lem_example :
    Answers
      (str "shutdown")
      (str "7")
      (some (error_reply (str "7") (negsuc 32600) "method not found: shutdown"))
unfolding handle answer_to is_str reading concat
handle_lem_example =
    handle_lem strict same_text shutdown
      (some (error_reply (str "7") (negsuc 32600) "method not found: shutdown")) refl

abbrev search : Dict
search = dict (
    ("id", str "8")
    ∷ ("method", str "tools/call")
    ∷ (
      "params",
      object (
          ("name", str "repo_search")
          ∷ ("arguments", object (("query", str "textproc") ∷ []))
          ∷ []),
    )
    ∷ [])

-- a parser that knows one text
abbrev parsed : String → Option Json
parsed text = if text == "search" then some (obj search) else none

abbrev printed : Dict → String
printed reply = "{}"

abbrev input : List String
input = "" ∷ "search" ∷ "sea" ∷ []

main_lem_example :
    ((main strict same_text parsed printed input).1 ≡ ok tt)
    × (length (main strict same_text parsed printed input).0
        ≡ requests strict same_text parsed printed input)
unfolding IsServed reading strip
main_lem_example =
    main_lem strict same_text parsed printed input
      (inl refl, (inr (inr (search, refl, (_, _, refl, refl, (_, refl)))), (inr (inl refl), tt)))
