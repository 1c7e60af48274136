-- ===== src/Lib.antt =====
-- A model of the Python library src/anse_harness: the records that a run of the agent harness
-- persists, the trace that it leaves, and the boundaries that its external actions pass.
--
-- A workflow writes its state, plan and task graph as JSON payloads, hands work to workers under
-- contracts, records findings, failures and retries the same way, and reads all of it back when
-- it resumes. Every step is an event that a recorder numbers and the trace writer redacts; a
-- replaying model adapter pairs those events again. Calls of external tools pass the approval
-- gate; the local double stands for the repository platform in tests.
--
-- Prelude: the numbers' Boolean tests, results with errors, lists, the decimal texts of ids, columns
--   (Padding), and `str.strip`, `str.splitlines` and the lines of a file (Whitespace, Trimming).
-- Json (Value, Convert): JSON-shaped Python values, and the subscripts and conversions (`d[k]`,
--   `d.get(k)`, `str`, `int`, `float`, `dict`, iteration). Each is exact on the type that the
--   writers produce; what a builtin does with a value of another type is the parameter `py`.
-- Workflow: State is workflows/state.py, with `to_payload` in its Payload and `from_payload` in
--   its Reading; Plan is workflows/plan.py, with its texts in Texts, and Graph is workflows/graph.py.
--   Engine is workflows/engine.py: its stages and names, Ending the runs of its table, StageTrace
--   the view of a shared trace file, Registries the tools of its stages. Integration is
--   workflows/integration.py with git as an argument, Comparison workflows/comparison.py. Orchestrator is workflows/orchestrator.py: its stages and
--   guard, Paths and Completion the runs, Artifacts the specification and the artifacts' names.
-- Workers.Contract is workers/contract.py; its Roles are the contracts of the three roles. Workers.Tasks
--   is the texts of the tasks in workers/runner.py. Validation is validation/pipeline.py.
-- Policy.Commands is policy/commands.py, with the maps of security/matrix.py to the policy matrix.
-- Review.Findings is review/findings.py; Parse is its reading of a reviewer's answer, with
--   `json.loads` as an argument.
-- Reliability: Records is reliability/classify.py and reliability/policy.py, Escalation the two
--   reports of reliability/controller.py, Injection is reliability/injection.py, Retries the tables of classify.py
--   and policy.py.
-- Evaluation: Runner is evaluation/runner.py: its records, with their artifact in Records; Executor
--   is write_task_executor and fresh_clone over a world that the calls of the sandbox manager, the
--   registry, the trace file, the adapters and the write loop change, and may change in raising.
--   Report is evaluation/report.py, Inspect is evaluation/inspect.py. Graders is evaluation/graders.py, with
--   the process that a grader starts and the hash of its script as arguments, Dataset is
--   evaluation/dataset.py.
-- Context.Tokens is context/tokens.py, Context.Packet the packet of context/packet.py, whose payload
--   it writes. Tools.Contracts is what the classes of tools/ declare; Tools.McpRepoServer is tools/mcp_repo_server.py: the texts
--   of stdin are a list of lines, those written a list with the exception that ends it, if any.
-- Tracing: Event is tracing/events.py, Redaction is tracing/jsonl.py, Recorder is `emit` of
--   integrations/contracts.py with `TraceWriter.write`, File the text of the file and `read_trace`.
-- Approvals is approvals/gate.py, Integrations.Mcp is `gated_tools_call` of
--   integrations/mcp_client.py, Integrations.LocalDouble is integrations/local_double.py,
--   Integrations.GitHub is the live transport of integrations/github.py, Integrations.Decisions the
--   audit and decision records of integrations/contracts.py.
-- Models: Types is models/types.py, Factory is models/factory.py, Replay is
--   models/replay.py, Scripted is models/scripted.py, Errors is models/errors.py with the handlers that the live adapters share, and Live is
--   models/live_anthropic.py, models/live_openai.py and models/live_gemini.py, over functions for the
--   call of the SDK and for JSON. Calls is what adapters with a position have in common.
-- Security.Matrix is security/matrix.py, security/capabilities.py and the switch of
--   security/shutdown.py, Security.Config is security/config.py.
-- Examples applies the theorems at concrete values.
--
-- A payload reader has the name of the record that it reads, `to_payload` and `from_payload` of
-- workflows/state.py and `to_dict` and `from_dict` of tracing/events.py excepted. A `float` is the
-- number of its bits. A dict is the list of its items in insertion order. Code that raises returns
-- a result; a method returns its result and the state that it leaves, on the raising paths too.
-- All recursion is structural, so no fuel is needed.
--
-- Not modelled: the many functions that raise `NotImplementedError` in the source; process and
-- network access; files beyond their texts; the system prompts; the
-- arithmetic and the notation of floats, which are arguments. The approval
-- gate and the client's call of the tool server are function arguments, since their own code raises.
pub mod Prelude
pub mod Json
pub mod Workflow
pub mod Policy
pub mod Validation
pub mod Workers
pub mod Review
pub mod Reliability
pub mod Context
pub mod Evaluation
pub mod Tools
pub mod Tracing
pub mod Approvals
pub mod Integrations
pub mod Models
pub mod Security
pub mod Examples
