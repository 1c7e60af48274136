-- ===== src/Models/Live/Gemini/Adapter.antt =====
-- src/anse_harness/models/live_gemini.py: GeminiAdapter.complete. `models.generate_content`,
-- `json.loads`, the milliseconds of a float and the fresh ids are arguments.
use ai_native_sweng.Prelude.{
  ℕ, suc, String, Bool, Option, none, some, List, [], ◌∷◌, ◌==◌, nonempty, map, if◌then◌else◌,
  Result, ok, err, Error, provider_error, ◌>>=◌,
}
use ai_native_sweng.Json.Value.{ℤ, pos, Json, Float, str, obj, Dict, end, object}
use ai_native_sweng.Models.Types.{ToolCall, ToolSpec, Usage, ModelRequest, ModelResponse}
use ai_native_sweng.Models.Errors.{classify_retryable_status}
use ai_native_sweng.Models.Live.{or_else, structured_of}
use ai_native_sweng.Models.Live.Gemini.{Content, to_contents}

pub record GenerateConfig : Type 0 where
  pub max_output_tokens : ℤ
  pub timeout_milliseconds : ℤ
  pub system_instruction : Option String
  pub function_declarations : List Json
  -- with the MIME type "application/json", where it is set
  pub response_json_schema : Json

pub record FunctionCall : Type 0 where
  pub id : Option String
  pub name : Option String
  pub args : Option Dict

pub record UsageMetadata : Type 0 where
  pub prompt_token_count : Option ℤ
  pub candidates_token_count : Option ℤ

-- A `None` list of calls is read as an empty one. `is_cut` is whether there is a candidate and the
-- first one's finish reason is MAX_TOKENS.
pub record Generated : Type 0 where
  pub function_calls : List FunctionCall
  pub text : Option String
  pub is_cut : Bool
  pub usage_metadata : Option UsageMetadata

-- What a call of the SDK does: it returns an answer, or raises an APIError, whose code may be no
-- int, or anything else.
pub data Called : Type 0 where
  generated : Generated → Called
  api_error : (code : Option ℕ) → Called
  other_failure : Error → Called

unfoldable pub declaration : ToolSpec → Json
declaration t = object (
    ("name", str t.name)
    ∷ ("description", str t.description)
    ∷ ("parameters", obj t.input_schema)
    ∷ [])

unfoldable pub generate_config : (milliseconds : Float → ℤ) → String → ModelRequest → GenerateConfig
unfolding declaration
generate_config milliseconds system request = record {
  max_output_tokens = request.max_tokens;
  timeout_milliseconds = milliseconds request.timeout_seconds;
  system_instruction = if system == "" then none else some system;
  function_declarations = map declaration request.tools;
  response_json_schema = request.response_schema;
}

-- exc.code if isinstance(exc.code, int) else 0
unfoldable pub status_of : Option ℕ → ℕ
status_of none = 0
status_of (some code) = code

-- the handler
unfoldable pub answer_or_raise : Called → Result Generated
unfolding status_of classify_retryable_status
answer_or_raise (generated g) = ok g
answer_or_raise (api_error code) =
    err (provider_error (classify_retryable_status (status_of code)) (some (status_of code)))
answer_or_raise (other_failure e) = err e

unfoldable pub or_zero : Option ℤ → ℤ
or_zero none = pos 0
or_zero (some n) = n

unfoldable pub or_empty : Option Dict → Dict
or_empty none = end
or_empty (some d) = d

unfoldable pub usage_from : Option UsageMetadata → Usage
unfolding or_zero
usage_from none = record { input_tokens = pos 0; output_tokens = pos 0 }
usage_from (some u) = record {
  input_tokens = or_zero u.prompt_token_count;
  output_tokens = or_zero u.candidates_token_count;
}

-- the calls of the answer; the n-th without an id gets a fresh one
unfoldable pub calls_from : (fresh : ℕ → String) → ℕ → List FunctionCall → List ToolCall
unfolding or_else or_empty
calls_from fresh n [] = []
calls_from fresh n (c ∷ cs) =
    record { id = or_else c.id (fresh n); name = or_else c.name ""; arguments = or_empty c.args }
    ∷ calls_from fresh (suc n) cs

module _ (loads : String → Result Json) (fresh : ℕ → String) where
  -- what `complete` makes of an answer
  unfoldable pub read_generated : ModelRequest → Generated → Result ModelResponse
  unfolding calls_from usage_from or_else structured_of
  read_generated request g =
      let calls = calls_from fresh 0 g.function_calls in
      let text = or_else g.text "" in
      do
        structured ← structured_of loads request.response_schema text
        ok (record {
          text = text;
          tool_calls = calls;
          structured_output = structured;
          usage = usage_from g.usage_metadata;
          stop_reason =
              if nonempty calls then "tool_use" else if g.is_cut then "max_tokens" else "end_turn";
        })

  unfoldable pub gemini_complete :
      (generate : String → List Content → GenerateConfig → Called) (milliseconds : Float → ℤ)
      → String
      → ModelRequest
      → Result ModelResponse
  unfolding to_contents generate_config answer_or_raise read_generated
  gemini_complete generate milliseconds model request = do
    let (system, contents) = to_contents request.messages
    g ← answer_or_raise (generate model contents (generate_config milliseconds system request))
    read_generated request g
