-- ===== src/Examples/Policies.antt =====
-- Policies and tool contracts at concrete values.
use ai_native_sweng.Prelude.{true, List, [], ◌∷◌, ◌≡◌, ◌≤◌, refl, none, some, map, contains}
use ai_native_sweng.Json.Value.{pos}
use ai_native_sweng.Workers.Contract.Roles.{
  implementer_contract, fix_worker_contract, reviewer_contract,
}
use ai_native_sweng.Evaluation.Runner.Executor.{canonical_tools}
use ai_native_sweng.Workflow.Engine.Registries.{investigation_tools, implementation_tools}
use ai_native_sweng.Tools.Contracts.{read_file, delete_file, tool_name, contract_of, tool_spec}
use ai_native_sweng.Tools.Contracts.Granted.{granted_tools_lem}
use ai_native_sweng.Tools.Contracts.Schemas.{is_closed, tool_spec_lem}
use ai_native_sweng.Reliability.Retries.{canonical_failure_classes}
use ai_native_sweng.Reliability.Retries.Taxonomy.{HasRule, default_retry_policy_lem}
use ai_native_sweng.Security.Matrix.{decision_rank}
use ai_native_sweng.Policy.Commands.{
  destructive, outcome_decision, CommandRule, default_rules, rule, validation, read_only, mutating,
  networked, prohibited, deny,
}
use ai_native_sweng.Policy.Commands.Consistent.{
  class_rank, rule_outcome, overlap, default_rules-ordered,
}

granted_tools_lem_example :
    ((contract_of read_file).side_effect_class ≡ 0)
    × (contains (map tool_name investigation_tools) (tool_name read_file) ≡ true)
    × (map tool_name implementation_tools ≡ (implementer_contract 0 (pos 8)).allowed_capabilities)
    × (map tool_name canonical_tools ≡ (fix_worker_contract 0 (pos 8)).allowed_capabilities)
unfolding contains reviewer_contract tool_name contract_of
granted_tools_lem_example = granted_tools_lem 0 (pos 8) "security" read_file refl

tool_spec_lem_example :
    (delete_file ≡ delete_file) × (is_closed (tool_spec delete_file).input_schema ≡ true)
tool_spec_lem_example = tool_spec_lem delete_file delete_file refl

default_retry_policy_lem_example :
    (contains canonical_failure_classes "policy denial" ≡ true) × HasRule "policy denial"
unfolding contains canonical_failure_classes
default_retry_policy_lem_example = default_retry_policy_lem "policy denial" refl

abbrev before_gofmt : List CommandRule
before_gofmt =
    (rule "git" prohibited (some "merge") [] none
        "merging finalizes a change past the approval boundary"
      ∷ rule "git" prohibited (some "rebase") [] none
          "rewriting history bypasses the approval boundary"
      ∷ rule "git" networked (some "push") [] (some deny)
          "pushing is an external consequential action; publishing is human-only"
      ∷ rule "git" networked (some "fetch") [] none "reaches the network"
      ∷ rule "git" networked (some "pull") [] none
          "reaches the network and rewrites the working copy"
      ∷ rule "git" destructive (some "reset") [] none "discards local changes"
      ∷ rule "git" destructive (some "clean") [] none "deletes untracked files"
      ∷ rule "git" destructive (some "checkout") [] none "can discard local changes"
      ∷ rule "git" mutating (some "add") [] none "stages changes inside the worktree"
      ∷ rule "git" mutating (some "commit") [] none "records changes inside the worktree"
      ∷ rule "git" read_only (some "status") [] none "observes working-tree state"
      ∷ rule "git" read_only (some "log") [] none "observes history"
      ∷ rule "git" validation (some "diff") ("--check" ∷ []) none
          "whitespace and conflict-marker check"
      ∷ rule "git" read_only (some "diff") [] none "observes changes"
      ∷ rule "git" read_only (some "show") [] none "observes objects"
      ∷ rule "git" read_only (some "ls-files") [] none "observes tracked files"
      ∷ rule "git" read_only (some "rev-parse") [] none "observes revisions"
      ∷ rule "git" read_only (some "cat-file") [] none "observes objects"
      ∷ rule "git" read_only (some "blame") [] none "observes history"
      ∷ rule "go" networked (some "get") [] none "installs dependencies from the network"
      ∷ rule "go" networked (some "install") [] none "installs tools from the network"
      ∷ rule "go" networked (some "mod") [] none "can rewrite go.mod and reach the network"
      ∷ rule "go" validation (some "build") [] none "compiles the project"
      ∷ rule "go" validation (some "vet") [] none "static analysis"
      ∷ rule "go" validation (some "test") [] none "runs the test suite"
      ∷ [])

abbrev gofmt_write : CommandRule
gofmt_write = rule "gofmt" mutating none ("-w" ∷ []) none "rewrites files in place"

abbrev gofmt_check : CommandRule
gofmt_check = rule "gofmt" validation none [] none "formatter in check mode"

abbrev after_gofmt : List CommandRule
after_gofmt =
    (rule "rm" destructive none [] none "deletes files"
      ∷ rule "curl" networked none [] none "reaches the network"
      ∷ rule "wget" networked none [] none "reaches the network"
      ∷ rule "sudo" prohibited none [] none "privilege escalation escapes the sandbox"
      ∷ rule "ssh" prohibited none [] none "remote execution escapes the sandbox"
      ∷ rule "scp" prohibited none [] none "remote transfer escapes the sandbox"
      ∷ [])

-- `gofmt -w` stands in front of `gofmt`
default_rules-ordered_example :
    (class_rank gofmt_check.command_class ≤ class_rank gofmt_write.command_class)
    × (decision_rank (outcome_decision (rule_outcome gofmt_check))
        ≤ decision_rank (outcome_decision (rule_outcome gofmt_write)))
unfolding default_rules overlap
default_rules-ordered_example =
    default_rules-ordered before_gofmt gofmt_write [] gofmt_check after_gofmt refl refl
