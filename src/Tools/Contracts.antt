-- ===== src/Tools/Contracts.antt =====
-- src/anse_harness/tools: what the classes of the tools declare, and `Tool.to_spec` of tools/base.py.
-- Running a tool raises in the source.
pub mod Granted
pub mod Schemas
use ai_native_sweng.Prelude.{ℕ, String, false, [], ◌∷◌}
use ai_native_sweng.Json.Value.{str, bool, Dict, dict, object, strings}
use ai_native_sweng.Models.Types.{ToolSpec}

-- the class variables of `Tool`
pub record ToolContract : Type 0 where
  pub name : String
  pub description : String
  pub input_schema : Dict
  pub side_effect_class : ℕ

pub data HarnessTool : Type 0 where
  list_files search_text read_file inspect_git_status create_file replace_text delete_file :
      HarnessTool
  inspect_diff run_validation_command run_read_only_command : HarnessTool

-- ListFilesTool
abbrev list_files_contract : ToolContract
list_files_contract = record {
  name = "list_files";
  description =
      "List repository-relative file paths under a directory in the repository under investigation, one per line, sorted. Paths are relative to the repository root; listings outside the repository are rejected. This tool never modifies the repository.";
  input_schema = dict (
      ("type", str "object")
      ∷ (
        "properties",
        object (
            (
              "path",
              object (
                  ("type", str "string")
                  ∷ (
                    "description",
                    str "Repository-relative directory to list; defaults to the root.",
                  )
                  ∷ []),
            )
            ∷ []),
      )
      ∷ ("required", strings [])
      ∷ ("additionalProperties", bool false)
      ∷ []);
  side_effect_class = 0;
}

-- SearchTextTool
abbrev search_text_contract : ToolContract
search_text_contract = record {
  name = "search_text";
  description =
      "Search for a literal substring across UTF-8 text files under a directory in the repository under investigation, returning matching lines as 'path:line: text', sorted. Paths are relative to the repository root; searches outside the repository are rejected. This tool never modifies the repository.";
  input_schema = dict (
      ("type", str "object")
      ∷ (
        "properties",
        object (
            (
              "query",
              object (
                  ("type", str "string")
                  ∷ ("description", str "Literal substring to search for.")
                  ∷ []),
            )
            ∷ (
              "path",
              object (
                  ("type", str "string")
                  ∷ (
                    "description",
                    str "Repository-relative directory to search; defaults to the root.",
                  )
                  ∷ []),
            )
            ∷ []),
      )
      ∷ ("required", strings ("query" ∷ []))
      ∷ ("additionalProperties", bool false)
      ∷ []);
  side_effect_class = 0;
}

-- ReadFileTool
abbrev read_file_contract : ToolContract
read_file_contract = record {
  name = "read_file";
  description =
      "Read a UTF-8 text file from the repository under investigation and return its contents. Paths are relative to the repository root; reads outside the repository are rejected. This tool never modifies the repository.";
  input_schema = dict (
      ("type", str "object")
      ∷ (
        "properties",
        object (
            (
              "path",
              object (
                  ("type", str "string")
                  ∷ ("description", str "Repository-relative path to the file to read.")
                  ∷ []),
            )
            ∷ []),
      )
      ∷ ("required", strings ("path" ∷ []))
      ∷ ("additionalProperties", bool false)
      ∷ []);
  side_effect_class = 0;
}

-- InspectGitStatusTool
abbrev inspect_git_status_contract : ToolContract
inspect_git_status_contract = record {
  name = "inspect_git_status";
  description =
      "Report the Git working-tree status of the repository under investigation as porcelain output (empty when the tree is clean). Runs 'git status --porcelain' read-only and never modifies the repository.";
  input_schema = dict (
      ("type", str "object")
      ∷ ("properties", object [])
      ∷ ("required", strings [])
      ∷ ("additionalProperties", bool false)
      ∷ []);
  side_effect_class = 0;
}

-- CreateFileTool
abbrev create_file_contract : ToolContract
create_file_contract = record {
  name = "create_file";
  description =
      "Create a new UTF-8 text file inside the sandbox worktree with the given content. Paths are relative to the worktree root; writes outside the worktree, into .git, or over an existing file are rejected. Edits are size-bounded.";
  input_schema = dict (
      ("type", str "object")
      ∷ (
        "properties",
        object (
            (
              "path",
              object (
                  ("type", str "string")
                  ∷ ("description", str "Worktree-relative path of the file to create.")
                  ∷ []),
            )
            ∷ (
              "content",
              object (
                  ("type", str "string")
                  ∷ ("description", str "Full UTF-8 content of the new file.")
                  ∷ []),
            )
            ∷ []),
      )
      ∷ ("required", strings ("path" ∷ "content" ∷ []))
      ∷ ("additionalProperties", bool false)
      ∷ []);
  side_effect_class = 1;
}

-- ReplaceTextTool
abbrev replace_text_contract : ToolContract
replace_text_contract = record {
  name = "replace_text";
  description =
      "Replace text in a UTF-8 file inside the sandbox worktree. old_text must occur exactly once in the file; zero or multiple occurrences are rejected so the edit is never ambiguous. Paths are relative to the worktree root; edits outside the worktree or into .git are rejected. Edits are size-bounded.";
  input_schema = dict (
      ("type", str "object")
      ∷ (
        "properties",
        object (
            (
              "path",
              object (
                  ("type", str "string")
                  ∷ ("description", str "Worktree-relative path of the file to edit.")
                  ∷ []),
            )
            ∷ (
              "old_text",
              object (
                  ("type", str "string")
                  ∷ (
                    "description",
                    str "Exact text to replace; must occur exactly once in the file.",
                  )
                  ∷ []),
            )
            ∷ (
              "new_text",
              object (("type", str "string") ∷ ("description", str "Replacement text.") ∷ []),
            )
            ∷ []),
      )
      ∷ ("required", strings ("path" ∷ "old_text" ∷ "new_text" ∷ []))
      ∷ ("additionalProperties", bool false)
      ∷ []);
  side_effect_class = 1;
}

-- DeleteFileTool
abbrev delete_file_contract : ToolContract
delete_file_contract = record {
  name = "delete_file";
  description =
      "Request deletion of a file inside the sandbox worktree. Deletion is a consequential action: every request goes to the approval gate, and the file is removed only when the deletion is approved. Paths are relative to the worktree root; deletions outside the worktree or into .git are rejected.";
  input_schema = dict (
      ("type", str "object")
      ∷ (
        "properties",
        object (
            (
              "path",
              object (
                  ("type", str "string")
                  ∷ ("description", str "Worktree-relative path of the file to delete.")
                  ∷ []),
            )
            ∷ (
              "reason",
              object (
                  ("type", str "string")
                  ∷ ("description", str "Why the file should be deleted; shown to the approver.")
                  ∷ []),
            )
            ∷ []),
      )
      ∷ ("required", strings ("path" ∷ "reason" ∷ []))
      ∷ ("additionalProperties", bool false)
      ∷ []);
  side_effect_class = 2;
}

-- InspectDiffTool
abbrev inspect_diff_contract : ToolContract
inspect_diff_contract = record {
  name = "inspect_diff";
  description =
      "Show every change made so far in the sandbox worktree as one unified diff against the starting revision, including newly created files. Takes no arguments and never modifies file contents.";
  input_schema = dict (
      ("type", str "object")
      ∷ ("properties", object [])
      ∷ ("required", strings [])
      ∷ ("additionalProperties", bool false)
      ∷ []);
  side_effect_class = 0;
}

-- RunValidationCommandTool
abbrev run_validation_command_contract : ToolContract
run_validation_command_contract = record {
  name = "run_validation_command";
  description =
      "Run one read-only or validation command inside the sandbox worktree and return its output. The command is an argv list (no shell). A deterministic command policy classifies every request; only allow-class commands execute, and every other class is returned as a policy decision without executing.";
  input_schema = dict (
      ("type", str "object")
      ∷ (
        "properties",
        object (
            (
              "command",
              object (
                  ("type", str "array")
                  ∷ ("items", object (("type", str "string") ∷ []))
                  ∷ ("description", str "Command as an argv list, e.g. ['go', 'test', './...'].")
                  ∷ []),
            )
            ∷ []),
      )
      ∷ ("required", strings ("command" ∷ []))
      ∷ ("additionalProperties", bool false)
      ∷ []);
  side_effect_class = 1;
}

-- RunReadOnlyCommandTool
abbrev run_read_only_command_contract : ToolContract
run_read_only_command_contract = record {
  name = "run_read_only_command";
  description =
      "Run one command from a fixed read-only allowlist in the repository under investigation and return its output. The command is an argv list (no shell). Only observation-only commands on the allowlist are permitted; every other command is denied. This tool never modifies the repository.";
  input_schema = dict (
      ("type", str "object")
      ∷ (
        "properties",
        object (
            (
              "command",
              object (
                  ("type", str "array")
                  ∷ ("items", object (("type", str "string") ∷ []))
                  ∷ (
                    "description",
                    str "Command as an argv list, e.g. ['git', 'status', '--porcelain'].",
                  )
                  ∷ []),
            )
            ∷ []),
      )
      ∷ ("required", strings ("command" ∷ []))
      ∷ ("additionalProperties", bool false)
      ∷ []);
  side_effect_class = 0;
}

unfoldable pub contract_of : HarnessTool → ToolContract
contract_of list_files = list_files_contract
contract_of search_text = search_text_contract
contract_of read_file = read_file_contract
contract_of inspect_git_status = inspect_git_status_contract
contract_of create_file = create_file_contract
contract_of replace_text = replace_text_contract
contract_of delete_file = delete_file_contract
contract_of inspect_diff = inspect_diff_contract
contract_of run_validation_command = run_validation_command_contract
contract_of run_read_only_command = run_read_only_command_contract

unfoldable pub tool_name : HarnessTool → String
unfolding contract_of
tool_name tool = (contract_of tool).name

-- Tool.to_spec
unfoldable pub tool_spec : HarnessTool → ToolSpec
unfolding contract_of
tool_spec tool = record {
  name = (contract_of tool).name;
  description = (contract_of tool).description;
  input_schema = (contract_of tool).input_schema;
}
