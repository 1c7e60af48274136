-- ===== src/Models/Replay/Pairing.antt =====
-- A recorded conversation as a trace, and its pairing.
use ai_native_sweng.Prelude.{
  String, false, some, none, List, [], ◌∷◌, ◌≡◌, refl, ok, err, map, All, ◌==◌, eq_refl, ap,
  value_error,
}
use ai_native_sweng.Json.Value.{str, obj, dict, items_list-items}
use ai_native_sweng.Json.Convert.{Builtins, reading}
use ai_native_sweng.Tracing.Event.{TraceEvent}
use ai_native_sweng.Models.Types.{
  ModelRequest, ModelResponse, messages_to_payload, request_to_payload, response_to_payload,
}
use ai_native_sweng.Models.Types.RoundTrip.{response_from_payload-response_to_payload}
use ai_native_sweng.Models.Replay.{
  Interaction, request_with_id, parent_request, interaction, interaction_with, pair_from,
  pair_interactions,
}

-- One call of a model: the ids of its two events, the request, the response, and the fields of the
-- events that the pairing does not read.
pub record Exchange : Type 0 where
  pub id : String
  pub reply_id : String
  pub request : ModelRequest
  pub response : ModelResponse
  pub frame : TraceEvent

-- the `model_requested` event of an exchange, and its `model_responded` event
unfoldable pub requested : Exchange → TraceEvent
requested x = record x.frame {
  event_type = "model_requested";
  event_id = x.id;
  payload = dict (("request", obj (request_to_payload x.request)) ∷ []);
}

unfoldable pub responded : Exchange → TraceEvent
responded x = record x.frame {
  event_type = "model_responded";
  event_id = x.reply_id;
  parent_event_id = str x.id;
  payload = dict (("response", obj (response_to_payload x.response)) ∷ []);
}

unfoldable pub trace : List Exchange → List TraceEvent
unfolding requested responded
trace [] = []
trace (x ∷ xs) = requested x ∷ responded x ∷ trace xs

unfoldable pub recorded : Exchange → Interaction
recorded x = record {
  recorded_messages = messages_to_payload x.request.messages;
  response = x.response;
}

-- No two requests have one id.
unfoldable pub HaveDistinctIds : List Exchange → Type 0
HaveDistinctIds [] = Unit
HaveDistinctIds (x ∷ xs) = All (λ y. (y.id == x.id) ≡ false) xs × HaveDistinctIds xs

module _ (id : String) where
  absent :
      (ys : List Exchange)
      → All (λ y. (y.id == id) ≡ false) ys
      → request_with_id id (trace ys) ≡ none
  unfolding request_with_id trace
  absent [] h = refl
  absent (y ∷ ys) h = rw (absent ys h.1, h.0) refl

IsFound : List Exchange → Exchange → Type 0
IsFound xs x = request_with_id x.id (trace xs) ≡ some (requested x)

IsFound-suc : (x y : Exchange) (xs : List Exchange) → IsFound xs y → IsFound (x ∷ xs) y
unfolding IsFound request_with_id trace
IsFound-suc x y xs h = rw h refl

all_suc : (x : Exchange) (xs ys : List Exchange) → All (IsFound xs) ys → All (IsFound (x ∷ xs)) ys
all_suc x xs [] h = tt
all_suc x xs (y ∷ ys) h = (IsFound-suc x y xs h.0, all_suc x xs ys h.1)

IsFound-first :
    (x : Exchange) (xs : List Exchange) → All (λ y. (y.id == x.id) ≡ false) xs → IsFound (x ∷ xs) x
unfolding IsFound request_with_id trace requested responded
IsFound-first x xs h = rw (absent x.id xs h, eq_refl x.id) refl

all-IsFound : (xs : List Exchange) → HaveDistinctIds xs → All (IsFound xs) xs
unfolding HaveDistinctIds
all-IsFound [] h = tt
all-IsFound (x ∷ xs) h = (IsFound-first x xs h.0, all_suc x xs xs (all-IsFound xs h.1))

parent_request-requested :
    (all : List TraceEvent) (x : Exchange)
    → request_with_id x.id all ≡ some (requested x)
    → parent_request (responded x).parent_event_id all ≡ ok (requested x)
unfolding parent_request responded
parent_request-requested all x h = ap (λ o. elim o [ some e ↦ ok e | none ↦ err value_error ]) h

module _ (py : Builtins) where
  interaction-recorded :
      (all : List TraceEvent) (x : Exchange)
      → request_with_id x.id all ≡ some (requested x)
      → interaction py all (responded x) ≡ ok (recorded x)
  unfolding interaction interaction_with responded requested recorded request_to_payload reading
  interaction-recorded all x h = simp (
    parent_request-requested all x h,
    items_list-items,
    response_from_payload-response_to_payload py,
  )

  pair_from-trace :
      (all : List TraceEvent) (xs : List Exchange)
      → All (λ x. request_with_id x.id all ≡ some (requested x)) xs
      → pair_from py all (trace xs) ≡ ok (map recorded xs)
  unfolding pair_from trace
  pair_from-trace all [] h = refl
  pair_from-trace all (x ∷ xs) h =
      rw (interaction-recorded all x h.0, pair_from-trace all xs h.1) refl

  pub pair_interactions-trace :
      (xs : List Exchange)
      → HaveDistinctIds xs
      → pair_interactions py (trace xs) ≡ ok (map recorded xs)
  unfolding pair_interactions IsFound
  pair_interactions-trace xs h = pair_from-trace (trace xs) xs (all-IsFound xs h)
