-- ===== src/Tools/Contracts/Schemas.antt =====
-- The argument schemas of the tools are closed, and the tools are told apart by their names.
use ai_native_sweng.Prelude.{
  String, Bool, true, false, Option, none, some, List, [], ◌∷◌, ◌≡◌, refl, sym, ap, ◌∙◌, ◌&&◌, ◌==◌,
  if◌then◌else◌,
}
use ai_native_sweng.Json.Value.{Json, bool, str, arr, obj, Items, nil, cons, Dict, lookup, items}
use ai_native_sweng.Json.Convert.{has}
use ai_native_sweng.Tools.Contracts.{
  HarnessTool, list_files, search_text, read_file, inspect_git_status, create_file, replace_text,
  delete_file, inspect_diff, run_validation_command, run_read_only_command, tool_name, contract_of,
  tool_spec,
}

-- every name of the list is a key of the dict
unfoldable pub all_declared : Dict → Items → Bool
unfolding has
all_declared properties nil = true
all_declared properties (cons (str name) rest) = has properties name && all_declared properties rest
all_declared properties (cons _ rest) = false

unfoldable pub declares_required : Option Json → Option Json → Bool
unfolding all_declared
declares_required (some (obj properties)) (some (arr names)) = all_declared properties names
declares_required _ _ = false

unfoldable pub is_object_type : Option Json → Bool
is_object_type (some (str t)) = t == "object"
is_object_type _ = false

unfoldable pub is_refused : Option Json → Bool
is_refused (some (bool false)) = true
is_refused _ = false

-- A schema of objects that declares all arguments that it requires, and admits no others.
unfoldable pub is_closed : Dict → Bool
unfolding lookup declares_required is_object_type is_refused
is_closed schema =
    is_object_type (lookup "type" schema)
    && declares_required (lookup "properties" schema) (lookup "required" schema)
    && is_refused (lookup "additionalProperties" schema)

schemas_closed : (tool : HarnessTool) → is_closed (contract_of tool).input_schema ≡ true
unfolding is_closed contract_of items
schemas_closed list_files = refl
schemas_closed search_text = refl
schemas_closed read_file = refl
schemas_closed inspect_git_status = refl
schemas_closed create_file = refl
schemas_closed replace_text = refl
schemas_closed delete_file = refl
schemas_closed inspect_diff = refl
schemas_closed run_validation_command = refl
schemas_closed run_read_only_command = refl

first_named : String → List HarnessTool → Option HarnessTool
first_named name [] = none
first_named name (tool ∷ rest) = if tool_name tool == name then some tool else first_named name rest

by_name : String → Option HarnessTool
by_name name = first_named name (
    list_files ∷ search_text ∷ read_file ∷ inspect_git_status ∷ create_file ∷ replace_text
    ∷ delete_file ∷ inspect_diff ∷ run_validation_command ∷ run_read_only_command ∷ [])

by_name-tool_name : (tool : HarnessTool) → by_name (tool_name tool) ≡ some tool
unfolding tool_name contract_of by_name first_named
by_name-tool_name list_files = refl
by_name-tool_name search_text = refl
by_name-tool_name read_file = refl
by_name-tool_name inspect_git_status = refl
by_name-tool_name create_file = refl
by_name-tool_name replace_text = refl
by_name-tool_name delete_file = refl
by_name-tool_name inspect_diff = refl
by_name-tool_name run_validation_command = refl
by_name-tool_name run_read_only_command = refl

-- Tools whose specifications have the same name are the same tool, and its schema is one of objects
-- that declares every argument that it requires and admits no other.
pub tool_spec_lem :
    (tool other : HarnessTool)
    → (tool_spec tool).name ≡ (tool_spec other).name
    → (tool ≡ other) × (is_closed (tool_spec tool).input_schema ≡ true)
unfolding tool_spec tool_name
tool_spec_lem tool other same = (
  ap (λ o. elim o [ some t ↦ t | none ↦ tool ])
      (sym (by_name-tool_name tool) ∙ (ap by_name same ∙ by_name-tool_name other)),
  schemas_closed tool,
)
