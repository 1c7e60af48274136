-- ===== src/Examples/Texts.antt =====
-- Texts and payloads at concrete values.
use Prim.Native.String.{◌++◌}
use ai_native_sweng.Prelude.{String, none, [], ◌∷◌, ◌≡◌, refl, All, join}
use ai_native_sweng.Json.Value.{pos}
use ai_native_sweng.Workflow.Plan.Texts.{plan_steps_from_text}
use ai_native_sweng.Workflow.Plan.Texts.Steps.{IsStep, plan_steps_from_text_lem}
use ai_native_sweng.Context.Packet.{
  repository_untrusted, FileExcerpt, ContextPacket, packet_payload,
}
use ai_native_sweng.Context.Packet.Faithful.{packet_payload-injective}

abbrev reply : String
reply = "1. Read the parser.\r\n\n  2. Fix it. \n"

plan_steps_from_text_lem_example :
    All IsStep (plan_steps_from_text reply)
    × (plan_steps_from_text (join "\n" (plan_steps_from_text reply)) ≡ plan_steps_from_text reply)
plan_steps_from_text_lem_example = plan_steps_from_text_lem reply

plan_steps_small : plan_steps_from_text reply ≡ "1. Read the parser." ∷ "2. Fix it." ∷ []
unfolding plan_steps_from_text
plan_steps_small = refl

abbrev parser : FileExcerpt
parser = record { path = "src/parser.py"; content = "def parse(): ..." }

-- a small packet for a task
abbrev packet_for : String → ContextPacket
packet_for task_id = record {
  context_packet_id = "ctx-0001";
  worker_type = "planner";
  task_id = task_id;
  repository_revision = "abc123";
  created_at = "2026-01-01T00:00:00Z";
  instructions = record {
    platform = "Stay in scope." ∷ [];
    repository = [];
    worker = [];
    task = "Fix the parser." ∷ "The tests pass." ∷ [];
  };
  evidence = record {
    files = parser ∷ [];
    symbols =
        record {
          name = "parse";
          kind = "function";
          file = "src/parser.py";
          line = pos 1;
          receiver = none;
        }
        ∷ [];
    tests = [];
    architecture_records = [];
    prior_artifacts = [];
  };
  constraints = record {
    token_budget = pos 4000;
    excluded_paths = ".git" ∷ [];
    prohibited_sources = [];
  };
  provenance = record {
    source_revision = "abc123";
    selection_reasons = ("src/parser.py", "named by the task") ∷ [];
    trust_classifications = ("src/parser.py", repository_untrusted) ∷ [];
    freshness =
        (
          "src/parser.py",
          record { revision = "abc123"; extracted_at = "2026-01-01T00:00:00Z"; method = "read" },
        )
        ∷ [];
  };
  conflicts = record {
    items =
        record {
          topic = "style";
          sources = "README.md" ∷ "AGENTS.md" ∷ [];
          claims = "Use tabs." ∷ "Use spaces." ∷ [];
          resolution = "unresolved";
        }
        ∷ [];
  };
  summary = record {
    token_estimate = pos 900;
    omissions = record { omitted = "docs/guide.md"; reason = "budget"; tokens = pos 5000 } ∷ [];
  };
}

packet_payload-injective_example : packet_for "task-1" ≡ packet_for ("task-" ++ "1")
unfolding packet_payload
packet_payload-injective_example =
    packet_payload-injective (packet_for "task-1") (packet_for ("task-" ++ "1")) refl
