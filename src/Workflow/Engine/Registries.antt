-- ===== src/Workflow/Engine/Registries.antt =====
-- src/anse_harness/workflows/engine.py: the tools that the stages register, in order.
use ai_native_sweng.Prelude.{List, [], ◌∷◌}
use ai_native_sweng.Tools.Contracts.{
  HarnessTool, list_files, search_text, read_file, inspect_git_status, create_file, replace_text,
  delete_file, inspect_diff, run_validation_command, run_read_only_command,
}

-- build_investigation_registry
abbrev pub investigation_tools : List HarnessTool
investigation_tools =
    list_files ∷ search_text ∷ read_file ∷ inspect_git_status ∷ run_read_only_command ∷ []

-- build_implementation_registry
abbrev pub implementation_tools : List HarnessTool
implementation_tools =
    list_files ∷ search_text ∷ read_file ∷ inspect_git_status ∷ create_file ∷ replace_text
    ∷ delete_file ∷ inspect_diff ∷ run_validation_command ∷ []
