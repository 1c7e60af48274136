-- ===== src/Models/Scripted/Recording.antt =====
-- A scripted run that is recorded and replayed: the script and the trace give the same answers.
use ai_native_sweng.Prelude.{
  ℕ, suc, List, [], ◌∷◌, ◌++◌, ◌≡◌, refl, Result, ok, err, true, Bool, script_exhausted_error,
  replay_exhausted_error, map, All, length, get_elem?, get_elem?-drop, get_elem?-length, ap, sym,
  ◌∙◌,
}
use mathlib.Core.List.{map-map}
use ai_native_sweng.Json.Value.{Json}
use ai_native_sweng.Json.Convert.{Builtins}
use ai_native_sweng.Models.Types.{ModelRequest, ModelResponse}
use ai_native_sweng.Models.Calls.{outcomes, IsAnswered, outcomes_in_order}
use ai_native_sweng.Models.Scripted.{
  ScriptStep, ScriptedAdapter, meets, given, step_answer, scripted_complete,
}
use ai_native_sweng.Models.Replay.{ReplayAdapter, replay_adapter, complete}
use ai_native_sweng.Models.Replay.Pairing.{Exchange, trace, HaveDistinctIds}
use ai_native_sweng.Models.Replay.Conformance.{IsSame, replay_adapter-trace}

abbrev pub script_at : List ScriptStep → ℕ → ScriptedAdapter
script_at steps k = record { steps = steps; position = k }

-- The step of a script that an exchange was recorded from, with what the step expects.
pub record Take : Type 0 where
  pub exchange : Exchange
  pub expect_substring : Json

abbrev pub request_of : Take → ModelRequest
request_of t = t.exchange.request

abbrev pub response_of : Take → ModelResponse
response_of t = t.exchange.response

unfoldable pub step_of : Take → ScriptStep
step_of t = record { response = response_of t; expect_substring = t.expect_substring }

-- The request meets the step's expectation.
abbrev pub IsMet : Take → Type 0
IsMet t = meets t.expect_substring (request_of t) ≡ ok true

scripted_complete-step_of :
    (t : Take) (before rest : List ScriptStep) (k : ℕ)
    → k ≡ length before
    → IsMet t
    → scripted_complete (request_of t) (script_at (before ++ step_of t ∷ rest) k)
      ≡ (ok (response_of t), script_at (before ++ step_of t ∷ rest) (suc k))
unfolding scripted_complete step_answer given step_of
scripted_complete-step_of t before rest k e h =
    let a = script_at (before ++ step_of t ∷ rest) k in
    ap (λ o. step_answer o (request_of t) a)
      (ap (get_elem? (before ++ step_of t ∷ rest)) e ∙ get_elem?-drop before (step_of t) rest)
    ∙ ap (λ m. given m (response_of t) a) h

scripted_complete-exhausted :
    (all : List ScriptStep) (r : ModelRequest) (k : ℕ)
    → k ≡ length all
    → (scripted_complete r (script_at all k)).0 ≡ err script_exhausted_error
unfolding scripted_complete step_answer
scripted_complete-exhausted all r k e =
    ap (λ o. (step_answer o r (script_at all k)).0) (ap (get_elem? all) e ∙ get_elem?-length all)

all-IsAnswered :
    (ts : List Take)
    → All IsMet ts
    → All (IsAnswered scripted_complete script_at step_of request_of response_of) ts
all-IsAnswered [] h = tt
all-IsAnswered (t ∷ ts) h =
    ((λ before rest k e. scripted_complete-step_of t before rest k e h.0), all-IsAnswered ts h.1)

module _ (same : List Json → List Json → Bool) (py : Builtins) where
  -- A script whose expectations are met and the replay of its recording (distinct request ids,
  -- messages that the comparison finds equal to themselves) give one list of responses to the same
  -- requests, and each raises that it has none left at one request more.
  pub scripted-replay :
      (ts : List Take) (extra : ModelRequest)
      → All IsMet ts
      → HaveDistinctIds (map (λ t. t.exchange) ts)
      → All (IsSame same) (map (λ t. t.exchange) ts)
      → (responses : List (Result ModelResponse)) × (a : ReplayAdapter) × (replay_adapter py
            (trace (map (λ t. t.exchange) ts))
          ≡ ok a)
        × (outcomes scripted_complete
              (map request_of ts ++ extra ∷ [])
              (script_at (map step_of ts) 0)
            ≡ responses ++ err script_exhausted_error ∷ [])
        × (outcomes (complete same) (map request_of ts ++ extra ∷ []) a
            ≡ responses ++ err replay_exhausted_error ∷ [])
  scripted-replay ts extra met distinct h =
      let (a, built, replayed) =
        replay_adapter-trace same py (map (λ t. t.exchange) ts) extra distinct h in
      (
        map (λ t. ok (response_of t)) ts,
        a,
        built,
        outcomes_in_order scripted_complete script_at step_of request_of response_of
            script_exhausted_error scripted_complete-exhausted extra [] ts 0 refl
            (all-IsAnswered ts met),
        ap (λ rs. outcomes (complete same) (rs ++ extra ∷ []) a)
              (sym (map-map (λ (x : Exchange). x.request) (λ (t : Take). t.exchange) ts))
            ∙ (replayed
                ∙ ap (λ rs. rs ++ err replay_exhausted_error ∷ [])
                    (map-map (λ (x : Exchange). ok x.response) (λ (t : Take). t.exchange) ts)),
      )
