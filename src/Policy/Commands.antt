-- ===== src/Policy/Commands.antt =====
-- src/anse_harness/policy/commands.py: the classes of commands, their default outcomes and the
-- default rules, and the two maps of security/matrix.py from them to the policy matrix.
pub mod Consistent
use ai_native_sweng.Prelude.{String, Option, none, some, List, [], ◌∷◌, concat}
use ai_native_sweng.Security.Matrix.{
  CapabilityClass, MatrixDecision, observation, local_reversible, local_consequential,
  external_reversible, approve,
}

pub data CommandClass : Type 0 where
  read_only validation mutating destructive networked prohibited : CommandClass

unfoldable pub command_class_value : CommandClass → String
command_class_value read_only = "read_only"
command_class_value validation = "validation"
command_class_value mutating = "mutating"
command_class_value destructive = "destructive"
command_class_value networked = "networked"
command_class_value prohibited = "prohibited"

pub data PolicyOutcome : Type 0 where
  allow allow_with_validation require_approval deny : PolicyOutcome

unfoldable pub outcome_value : PolicyOutcome → String
outcome_value allow = "allow"
outcome_value allow_with_validation = "allow_with_validation"
outcome_value require_approval = "require_approval"
outcome_value deny = "deny"

-- CLASS_OUTCOMES
unfoldable pub class_outcome : CommandClass → PolicyOutcome
class_outcome read_only = allow
class_outcome validation = allow
class_outcome mutating = allow_with_validation
class_outcome destructive = require_approval
class_outcome networked = require_approval
class_outcome prohibited = deny

-- CMD_TO_CAPABILITY
unfoldable pub command_capability : CommandClass → CapabilityClass
command_capability read_only = observation
command_capability validation = observation
command_capability mutating = local_reversible
command_capability destructive = local_consequential
command_capability networked = external_reversible
command_capability prohibited = CapabilityClass.prohibited

-- OUTCOME_TO_DECISION
unfoldable pub outcome_decision : PolicyOutcome → MatrixDecision
outcome_decision allow = MatrixDecision.allow
outcome_decision allow_with_validation = MatrixDecision.allow
outcome_decision require_approval = approve
outcome_decision deny = MatrixDecision.deny

pub record PolicyDecision : Type 0 where
  pub command : List String
  pub command_class : Option CommandClass
  pub outcome : PolicyOutcome
  pub reason : String

unfoldable pub class_text : Option CommandClass → String
unfolding command_class_value
class_text none = "unclassified"
class_text (some c) = command_class_value c

-- PolicyDecision.render
unfoldable pub render_decision : PolicyDecision → String
unfolding concat outcome_value class_text
render_decision d = concat (
    "policy: "
    ∷ outcome_value d.outcome
    ∷ " ("
    ∷ class_text d.command_class
    ∷ "): "
    ∷ d.reason
    ∷ [])

pub record CommandRule : Type 0 where
  pub executable : String
  pub command_class : CommandClass
  pub subcommand : Option String
  pub with_flags : List String
  pub outcome : Option PolicyOutcome
  pub reason : String

abbrev pub rule :
    String
    → CommandClass
    → Option String
    → List String
    → Option PolicyOutcome
    → String
    → CommandRule
rule executable command_class subcommand with_flags outcome reason = record {
  executable = executable;
  command_class = command_class;
  subcommand = subcommand;
  with_flags = with_flags;
  outcome = outcome;
  reason = reason;
}

unfoldable pub default_rules : List CommandRule
default_rules =
    rule "git" prohibited (some "merge") [] none
      "merging finalizes a change past the approval boundary"
    ∷ rule "git" prohibited (some "rebase") [] none
        "rewriting history bypasses the approval boundary"
    ∷ rule "git" networked (some "push") [] (some deny)
        "pushing is an external consequential action; publishing is human-only"
    ∷ rule "git" networked (some "fetch") [] none "reaches the network"
    ∷ rule "git" networked (some "pull") [] none "reaches the network and rewrites the working copy"
    ∷ rule "git" destructive (some "reset") [] none "discards local changes"
    ∷ rule "git" destructive (some "clean") [] none "deletes untracked files"
    ∷ rule "git" destructive (some "checkout") [] none "can discard local changes"
    ∷ rule "git" mutating (some "add") [] none "stages changes inside the worktree"
    ∷ rule "git" mutating (some "commit") [] none "records changes inside the worktree"
    ∷ rule "git" read_only (some "status") [] none "observes working-tree state"
    ∷ rule "git" read_only (some "log") [] none "observes history"
    ∷ rule "git" validation (some "diff") ("--check" ∷ []) none
        "whitespace and conflict-marker check"
    ∷ rule "git" read_only (some "diff") [] none "observes changes"
    ∷ rule "git" read_only (some "show") [] none "observes objects"
    ∷ rule "git" read_only (some "ls-files") [] none "observes tracked files"
    ∷ rule "git" read_only (some "rev-parse") [] none "observes revisions"
    ∷ rule "git" read_only (some "cat-file") [] none "observes objects"
    ∷ rule "git" read_only (some "blame") [] none "observes history"
    ∷ rule "go" networked (some "get") [] none "installs dependencies from the network"
    ∷ rule "go" networked (some "install") [] none "installs tools from the network"
    ∷ rule "go" networked (some "mod") [] none "can rewrite go.mod and reach the network"
    ∷ rule "go" validation (some "build") [] none "compiles the project"
    ∷ rule "go" validation (some "vet") [] none "static analysis"
    ∷ rule "go" validation (some "test") [] none "runs the test suite"
    ∷ rule "gofmt" mutating none ("-w" ∷ []) none "rewrites files in place"
    ∷ rule "gofmt" validation none [] none "formatter in check mode"
    ∷ rule "rm" destructive none [] none "deletes files"
    ∷ rule "curl" networked none [] none "reaches the network"
    ∷ rule "wget" networked none [] none "reaches the network"
    ∷ rule "sudo" prohibited none [] none "privilege escalation escapes the sandbox"
    ∷ rule "ssh" prohibited none [] none "remote execution escapes the sandbox"
    ∷ rule "scp" prohibited none [] none "remote transfer escapes the sandbox"
    ∷ []
