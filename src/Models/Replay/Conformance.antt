-- ===== src/Models/Replay/Conformance.antt =====
-- A recorded conversation is replayed: the adapter built from its trace gives the same responses
-- to the same requests, in order, and then has none left.
use ai_native_sweng.Prelude.{
  ℕ, suc, Bool, true, some, List, [], ◌∷◌, ◌++◌, ◌≡◌, refl, ok, err, replay_exhausted_error,
  replay_mismatch_error, map, All, length, get_elem?, get_elem?-drop, get_elem?-length,
  if◌then◌else◌, ap, ◌>>=◌, ◌∙◌,
}
use ai_native_sweng.Json.Value.{Json}
use ai_native_sweng.Json.Convert.{Builtins}
use ai_native_sweng.Models.Types.{ModelRequest, messages_to_payload}
use ai_native_sweng.Models.Replay.{Interaction, ReplayAdapter, replay_adapter, answer, complete}
use ai_native_sweng.Models.Replay.Pairing.{
  Exchange, trace, recorded, HaveDistinctIds, pair_interactions-trace,
}
use ai_native_sweng.Models.Calls.{outcomes, IsAnswered, outcomes_in_order}

abbrev pub adapter_at : List Interaction → ℕ → ReplayAdapter
adapter_at all k = record { interactions = all; position = k }

module _ (same : List Json → List Json → Bool) where
  -- The comparison finds the messages of an exchange equal to themselves.
  abbrev pub IsSame : Exchange → Type 0
  IsSame x =
      same (messages_to_payload x.request.messages) (messages_to_payload x.request.messages) ≡ true

  answer-recorded :
      (x : Exchange) (a : ReplayAdapter)
      → IsSame x
      → answer same (some (recorded x)) x.request a
        ≡ (ok x.response, record a { position = suc a.position })
  unfolding answer recorded
  answer-recorded x a h =
      ap
        (λ b.
          if b
          then (ok x.response, record a { position = suc a.position })
          else (err replay_mismatch_error, a))
        h

  complete-recorded :
      (before rest : List Interaction) (x : Exchange) (k : ℕ)
      → k ≡ length before
      → IsSame x
      → complete same x.request (adapter_at (before ++ recorded x ∷ rest) k)
        ≡ (ok x.response, adapter_at (before ++ recorded x ∷ rest) (suc k))
  unfolding complete
  complete-recorded before rest x k e h =
      let a = adapter_at (before ++ recorded x ∷ rest) k in
      ap (λ o. answer same o x.request a)
        (ap (get_elem? (before ++ recorded x ∷ rest)) e ∙ get_elem?-drop before (recorded x) rest)
      ∙ answer-recorded x a h

  complete-exhausted :
      (all : List Interaction) (r : ModelRequest) (k : ℕ)
      → k ≡ length all
      → (complete same r (adapter_at all k)).0 ≡ err replay_exhausted_error
  unfolding complete answer
  complete-exhausted all r k e =
      ap (λ o. (answer same o r (adapter_at all k)).0) (ap (get_elem? all) e ∙ get_elem?-length all)

  all-IsAnswered :
      (xs : List Exchange)
      → All IsSame xs
      → All (IsAnswered (complete same) adapter_at recorded (λ x. x.request) (λ x. x.response)) xs
  all-IsAnswered [] h = tt
  all-IsAnswered (x ∷ xs) h =
      ((λ before rest k e. complete-recorded before rest x k e h.0), all-IsAnswered xs h.1)

  module _ (py : Builtins) where
    -- A conversation with distinct request ids, whose messages the comparison finds equal to
    -- themselves, is replayed from its trace: the trace is paired without an error, the adapter
    -- that it makes answers the same requests with the recorded responses in order, and one
    -- request more raises that there is no interaction left.
    pub replay_adapter-trace :
        (xs : List Exchange) (extra : ModelRequest)
        → HaveDistinctIds xs
        → All IsSame xs
        → (a : ReplayAdapter) × (replay_adapter py (trace xs) ≡ ok a)
          × (outcomes (complete same) (map (λ x. x.request) xs ++ extra ∷ []) a
              ≡ map (λ x. ok x.response) xs ++ err replay_exhausted_error ∷ [])
    unfolding replay_adapter
    replay_adapter-trace xs extra distinct h = (
      adapter_at (map recorded xs) 0,
      ap (λ r. r >>= λ is. ok (adapter_at is 0)) (pair_interactions-trace py xs distinct),
      outcomes_in_order (complete same) adapter_at recorded (λ x. x.request) (λ x. x.response)
          replay_exhausted_error complete-exhausted extra [] xs 0 refl (all-IsAnswered xs h),
    )
