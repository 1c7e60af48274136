-- ===== src/Context/Tokens.antt =====
-- src/anse_harness/context/tokens.py. A text is a sequence of Unicode scalar values.
pub mod Bounds
use Prim.Native.String.{len}
use ai_native_sweng.Prelude.{ℕ, String, ◌+◌, ◌-◌, ◌/◌}

abbrev pub bytes_per_token : ℕ
bytes_per_token = 4

-- len(text.encode("utf-8")) is `len`.
unfoldable pub estimate_tokens : String → ℕ
estimate_tokens text = (len text + bytes_per_token - 1) / bytes_per_token
