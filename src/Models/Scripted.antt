-- ===== src/Models/Scripted.antt =====
-- src/anse_harness/models/scripted.py: the adapter that answers a model's requests from a script.
pub mod Recording
use ai_native_sweng.Prelude.{
  ℕ, suc, String, Bool, true, false, Option, none, some, List, [], ◌∷◌, Result, ok, err,
  value_error, type_error, attribute_error, script_exhausted_error, script_mismatch_error,
  get_elem?, is_in, ◌>>=◌, traverse,
}
use ai_native_sweng.Json.Value.{Json, null, str, arr, obj, Dict, items_list}
use ai_native_sweng.Json.Convert.{Builtins, index, get, subscripted}
use ai_native_sweng.Models.Types.{Message, ModelRequest, ModelResponse, response_from_payload}

-- `expect_substring` is read unconverted.
pub record ScriptStep : Type 0 where
  pub response : ModelResponse
  pub expect_substring : Json

pub record ScriptedAdapter : Type 0 where
  pub steps : List ScriptStep
  pub position : ℕ

-- request.messages[-1].content if request.messages else ""
unfoldable pub last_content : List Message → String
last_content [] = ""
last_content (m ∷ []) = m.content
last_content (m ∷ n ∷ rest) = last_content (n ∷ rest)

-- whether a step's expectation is met; only a text can be looked for in a text
unfoldable pub meets : Json → ModelRequest → Result Bool
unfolding last_content is_in
meets null request = ok true
meets (str t) request = ok (is_in t (last_content request.messages))
meets _ request = err type_error

-- the response of a step whose expectation has been looked at
unfoldable pub given :
    Result Bool → ModelResponse → ScriptedAdapter → Result ModelResponse × ScriptedAdapter
given (ok true) response a = (ok response, record a { position = suc a.position })
given (ok false) response a = (err script_mismatch_error, a)
given (err x) response a = (err x, a)

-- the rest of `complete`, for the step at the position, if there is one
unfoldable pub step_answer :
    Option ScriptStep → ModelRequest → ScriptedAdapter → Result ModelResponse × ScriptedAdapter
unfolding meets given
step_answer none request a = (err script_exhausted_error, a)
step_answer (some step) request a = given (meets step.expect_substring request) step.response a

-- ScriptedAdapter.complete
unfoldable pub scripted_complete :
    ModelRequest → ScriptedAdapter → Result ModelResponse × ScriptedAdapter
scripted_complete request a = step_answer (get_elem? a.steps a.position) request a

-- A value whose first use is `.get`.
unfoldable pub attributed : Json → Result Dict
attributed (obj d) = ok d
attributed _ = err attribute_error

module _ (py : Builtins) where
  unfoldable pub script_step : Json → Result ScriptStep
  script_step item = do
    d ← subscripted item
    response_raw ← index d "response"
    response_dict ← attributed response_raw
    response ← response_from_payload py response_dict
    ok (record { response = response; expect_substring = get d "expect_substring" })

  -- ScriptedAdapter.from_file, of what the file's JSON reads as
  unfoldable pub scripted_adapter : Json → Result ScriptedAdapter
  scripted_adapter (arr xs) = do
    steps ← traverse script_step (items_list xs)
    ok (record { steps = steps; position = 0 })
  scripted_adapter _ = err value_error
