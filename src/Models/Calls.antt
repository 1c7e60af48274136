-- ===== src/Models/Calls.antt =====
-- An adapter that answers from a list, in order: src/anse_harness/models/replay.py and scripted.py.
-- What holds of both: calls in a row get the items' responses, and one call more finds none left.
use ai_native_sweng.Prelude.{
  ℕ, suc, List, [], ◌∷◌, ◌++◌, ◌≡◌, Result, ok, err, Error, map, All, length, arith, ap,
  append_assoc, length-append, ◌∙◌,
}
use mathlib.Core.Path.{subst}
use ai_native_sweng.Models.Types.{ModelRequest, ModelResponse}

-- Calls of `complete` in a row, with their outcomes.
unfoldable pub outcomes {ℓ} :
    {S : Type ℓ}
    → (ModelRequest → S → Result ModelResponse × S)
    → List ModelRequest
    → S
    → List (Result ModelResponse)
outcomes complete [] s = []
outcomes complete (r ∷ rs) s = let (reply, s') = complete r s in reply ∷ outcomes complete rs s'

module _ {S I X : Type 0} (complete : ModelRequest → S → Result ModelResponse × S)
    (adapter : List I → ℕ → S) (item : X → I) (request : X → ModelRequest)
    (response : X → ModelResponse) where
  -- The item of `x` answers its request, at its position in any list.
  abbrev pub IsAnswered : X → Type 0
  IsAnswered x =
      (before rest : List I) (k : ℕ)
      → k ≡ length before
      → complete (request x) (adapter (before ++ item x ∷ rest) k)
        ≡ (ok (response x), adapter (before ++ item x ∷ rest) (suc k))

  module _ (exhausted : Error)
      (ends : (all : List I) (r : ModelRequest) (k : ℕ)
        → k ≡ length all
        → (complete r (adapter all k)).0 ≡ err exhausted) where
    pub outcomes_in_order :
        (extra : ModelRequest) (before : List I) (xs : List X) (k : ℕ)
        → k ≡ length before
        → All IsAnswered xs
        → outcomes complete (map request xs ++ extra ∷ []) (adapter (before ++ map item xs) k)
          ≡ map (λ x. ok (response x)) xs ++ err exhausted ∷ []
    unfolding outcomes
    outcomes_in_order extra before [] k e h =
        ap (λ r. r ∷ []) (ends (before ++ []) extra k (omega (arith, e, length-append before [])))
    outcomes_in_order extra before (x ∷ xs) k e h =
        let later = map request xs ++ extra ∷ [] in
        let expected = map (λ x. ok (response x)) xs ++ err exhausted ∷ [] in
        ap (λ p. p.0 ∷ outcomes complete later p.1) (h.0 before (map item xs) k e)
        ∙ ap (λ rs. ok (response x) ∷ rs)
            (subst (λ l. outcomes complete later (adapter l (suc k)) ≡ expected)
              (append_assoc before (item x ∷ []) (map item xs))
              (outcomes_in_order extra (before ++ item x ∷ []) xs (suc k)
                (omega (arith, e, length-append before (item x ∷ []))) h.1))
