-- ===== src/Models/Live.antt =====
-- src/anse_harness/models: the live adapters, and what they share.
pub mod Anthropic
pub mod Gemini
pub mod OpenAi
use ai_native_sweng.Prelude.{
  String, Bool, true, false, Option, none, some, not, ◌&&◌, ◌==◌, ◌≡◌, if◌then◌else◌, Result, ok,
  arith,
}
use ai_native_sweng.Json.Value.{Json, null}
use ai_native_sweng.Models.Errors.Retry.{raises_retryable}

-- x is None
abbrev pub is_none : Json → Bool
is_none null = true
is_none _ = false

-- `x or default`, for a str or `None`
unfoldable pub or_else : Option String → String → String
or_else none default = default
or_else (some s) default = if s == "" then default else s

-- the structured output: with a schema, a text that is not empty is parsed
unfoldable pub structured_of : (loads : String → Result Json) → Json → String → Result Json
structured_of loads schema text =
    if not (is_none schema) && not (text == "") then loads text else ok null

pub structured_of-calm :
    (loads : String → Result Json)
    → ((t : String) → raises_retryable (loads t) ≡ false)
    → (schema : Json) (text : String) → raises_retryable (structured_of loads schema text) ≡ false
unfolding structured_of raises_retryable
structured_of-calm loads calm schema text = ground (arith, calm text)
