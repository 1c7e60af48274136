-- ===== src/Models/Replay.antt =====
-- src/anse_harness/models/replay.py: the adapter that answers a model's requests from a trace.
-- Python's `==` on lists of JSON values is an argument, `same`.
pub mod Pairing
pub mod Conformance
use ai_native_sweng.Prelude.{
  ℕ, suc, String, Bool, Option, none, some, List, [], ◌∷◌, Result, ok, err, value_error, type_error,
  replay_exhausted_error, replay_mismatch_error, get_elem?, ◌==◌, ◌>>=◌, if◌then◌else◌,
}
use ai_native_sweng.Json.Value.{Dict, Json, str, arr, obj, object, array}
use ai_native_sweng.Json.Convert.{Builtins, get_or, get_or_any, iterate, as_dict}
use ai_native_sweng.Tracing.Event.{TraceEvent}
use ai_native_sweng.Models.Types.{
  ModelRequest, ModelResponse, messages_to_payload, response_from_payload,
}

pub record Interaction : Type 0 where
  pub recorded_messages : List Json
  pub response : ModelResponse

-- requests.get(id): of the `model_requested` events with that id, a dict keeps the last
unfoldable pub request_with_id : String → List TraceEvent → Option TraceEvent
request_with_id id [] = none
request_with_id id (e ∷ es) = elim (request_with_id id es) [
  | some later ↦ some later
  | none ↦
      if e.event_type == "model_requested" then if e.event_id == id then some e else none else none
]

-- the request that a response's parent names; a list or a dict has no hash
unfoldable pub parent_request : Json → List TraceEvent → Result TraceEvent
parent_request (str id) es = elim (request_with_id id es) [ some e ↦ ok e | none ↦ err value_error ]
parent_request (arr xs) es = err type_error
parent_request (obj d) es = err type_error
parent_request _ es = err value_error

module _ (py : Builtins) where
  -- the interaction of a request's payload and its response's payload
  unfoldable pub interaction_with : Dict → Dict → Result Interaction
  interaction_with request_payload response_payload = do
    recorded ← get_or_any (get_or request_payload "request" (object [])) "messages" (array [])
    recorded_messages ← iterate recorded
    response_dict ← as_dict py (get_or response_payload "response" (object []))
    response ← response_from_payload py response_dict
    ok (record { recorded_messages = recorded_messages; response = response })

  unfoldable pub interaction : List TraceEvent → TraceEvent → Result Interaction
  unfolding parent_request interaction_with
  interaction all event = do
    request_event ← parent_request event.parent_event_id all
    interaction_with request_event.payload event.payload

  -- the loop of `_pair_interactions` over the events left
  unfoldable pub pair_from : List TraceEvent → List TraceEvent → Result (List Interaction)
  pair_from all [] = ok []
  pair_from all (event ∷ rest) =
      let paired = do i ← interaction all event; is ← pair_from all rest; ok (i ∷ is)
      in if event.event_type == "model_responded" then paired else pair_from all rest

  -- _pair_interactions
  unfoldable pub pair_interactions : List TraceEvent → Result (List Interaction)
  unfolding pair_from
  pair_interactions events = pair_from events events

pub record ReplayAdapter : Type 0 where
  pub interactions : List Interaction
  pub position : ℕ

module _ (py : Builtins) where
  -- ReplayAdapter.__init__, on the events of the trace file
  unfoldable pub replay_adapter : List TraceEvent → Result ReplayAdapter
  unfolding pair_interactions
  replay_adapter events = do
    interactions ← pair_interactions py events
    ok (record { interactions = interactions; position = 0 })

module _ (same : List Json → List Json → Bool) where
  -- the rest of `complete`, for the interaction at the position, if there is one
  unfoldable pub answer :
      Option Interaction → ModelRequest → ReplayAdapter → Result ModelResponse × ReplayAdapter
  answer none request a = (err replay_exhausted_error, a)
  answer (some i) request a =
      if same (messages_to_payload request.messages) i.recorded_messages
      then (ok i.response, record a { position = suc a.position })
      else (err replay_mismatch_error, a)

  -- ReplayAdapter.complete
  unfoldable pub complete : ModelRequest → ReplayAdapter → Result ModelResponse × ReplayAdapter
  complete request a = answer (get_elem? a.interactions a.position) request a
