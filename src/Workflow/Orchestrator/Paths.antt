-- ===== src/Workflow/Orchestrator/Paths.antt =====
-- What the transition table allows over a whole run: a run is a path of accepted transitions.
use ai_native_sweng.Prelude.{
  not, ◌&&◌, ◌||◌, eqb, ◌≢◌, ℕ, ◌+◌, Bool, true, [], ◌∷◌, ◌≡◌, refl, ◌⊎◌, inl, inr, ◌↔◌, ok, err,
  arith, if◌then◌else◌, invalid_multi_transition_error,
}
use ai_native_sweng.Workflow.Orchestrator.{
  MultiStage, intake, fan_out, integrate, validate, review, consolidate, fix, prepare_result,
  completed, failed, cancelled, escalated, multi_terminal_stages, stage_in,
  validate_multiworker_transition, multi_transitions,
}

-- A run from its current stage to a last one: every transition has passed the guard.
pub data Run : MultiStage → MultiStage → Type 0 where
  stop : {s : MultiStage} → Run s s
  move :
      {u : MultiStage} (s t : MultiStage)
      → validate_multiworker_transition s t ≡ ok tt
      → Run t u
      → Run s u

abbrev IsTerminal : MultiStage → Type 0
IsTerminal s = stage_in s multi_terminal_stages ≡ true

terminal_refuses :
    (s t : MultiStage)
    → IsTerminal s
    → validate_multiworker_transition s t ≡ err invalid_multi_transition_error
unfolding validate_multiworker_transition multi_terminal_stages multi_transitions stage_in
terminal_refuses intake t h = cc
terminal_refuses _ t h = ground arith

cancelled_or_IsTerminal :
    (s : MultiStage) → (validate_multiworker_transition s cancelled ≡ ok tt) ⊎ IsTerminal s
unfolding validate_multiworker_transition multi_terminal_stages multi_transitions stage_in
cancelled_or_IsTerminal intake = ground arith
cancelled_or_IsTerminal _ = ground arith

-- The guard refuses every transition out of a stage exactly when the stage is terminal, and it
-- accepts the cancellation of every other stage.
pub IsTerminal-iff :
    (s : MultiStage)
    → (IsTerminal s ↔ (
        (t : MultiStage)
        → validate_multiworker_transition s t ≡ err invalid_multi_transition_error))
      × ((validate_multiworker_transition s cancelled ≡ ok tt) ⊎ IsTerminal s)
IsTerminal-iff s = (
  (
    λ h t. terminal_refuses s t h,
    λ refuses. elim (cancelled_or_IsTerminal s) [
      | inl c ↦ ground (arith, refuses cancelled)
      | inr h ↦ h
    ],
  ),
  cancelled_or_IsTerminal s,
)

-- the number of times that a run enters stage `x`
unfoldable pub entered : (x : MultiStage) {s u : MultiStage} → Run s u → ℕ
unfolding stage_in
entered x stop = 0
entered x (move s t h r) = (if stage_in x (t ∷ []) then 1 else 0) + entered x r

Run-terminal : {s u : MultiStage} → Run s u → IsTerminal s → s ≡ u
unfolding validate_multiworker_transition multi_terminal_stages multi_transitions stage_in
Run-terminal stop h = refl
Run-terminal (move s t h r) p = ground (arith, terminal_refuses s t p)

-- 1 where the stage stands behind a `validate` (or a `review`, a `consolidate`) that no `fix` has
-- undone yet
after_validate : MultiStage → ℕ
after_validate validate = 1
after_validate review = 1
after_validate consolidate = 1
after_validate prepare_result = 1
after_validate completed = 1
after_validate _ = 0

after_review : MultiStage → ℕ
after_review review = 1
after_review consolidate = 1
after_review prepare_result = 1
after_review completed = 1
after_review _ = 0

after_consolidate : MultiStage → ℕ
after_consolidate consolidate = 1
after_consolidate prepare_result = 1
after_consolidate completed = 1
after_consolidate _ = 0

-- 1 if the two stages are one
same : MultiStage → MultiStage → ℕ
same x t = if stage_in x (t ∷ []) then 1 else 0

given_up : MultiStage → Bool
given_up t = stage_in t (failed ∷ cancelled ∷ escalated ∷ [])

-- The table, checked at every pair of stages by evaluation.
for_all : (MultiStage → Bool) → Bool
for_all p =
    p intake
    && p fan_out
    && p integrate
    && p validate
    && p review
    && p consolidate
    && p fix
    && p prepare_result
    && p completed
    && p failed
    && p cancelled
    && p escalated

for_all_sound : (p : MultiStage → Bool) → for_all p ≡ true → (s : MultiStage) → p s ≡ true
unfolding for_all
for_all_sound p h intake = ground arith
for_all_sound p h _ = ground arith

counted : MultiStage → MultiStage → Bool
counted s t =
    not (stage_in t (multi_transitions s))
    || (given_up t
        || (eqb (same validate t + after_validate s) (same fix t + after_validate t)
            && eqb (same review t + after_review s) (same fix t + after_review t)
            && eqb (same consolidate t + after_consolidate s) (same fix t + after_consolidate t)))

counted_table : for_all (λ s. for_all (λ t. counted s t)) ≡ true
unfolding for_all counted same given_up after_validate after_review after_consolidate
    multi_transitions stage_in
counted_table = refl

counted-counts :
    (s t : MultiStage)
    → validate_multiworker_transition s t ≡ ok tt
    → counted s t ≡ true
    → (given_up t ≡ true)
      ⊎ ((same validate t + after_validate s ≡ same fix t + after_validate t)
          × (same review t + after_review s ≡ same fix t + after_review t)
          × (same consolidate t + after_consolidate s ≡ same fix t + after_consolidate t))
unfolding validate_multiworker_transition counted
counted-counts s t h c = ground arith

-- A transition either gives up or changes each count as its stage says.
step_counts :
    (s t : MultiStage)
    → validate_multiworker_transition s t ≡ ok tt
    → (given_up t ≡ true)
      ⊎ ((same validate t + after_validate s ≡ same fix t + after_validate t)
          × (same review t + after_review s ≡ same fix t + after_review t)
          × (same consolidate t + after_consolidate s ≡ same fix t + after_consolidate t))
step_counts s t h =
    counted-counts s t h
      (for_all_sound (counted s) (for_all_sound (λ x. for_all (counted x)) counted_table s) t)

given_up-IsTerminal :
    (t : MultiStage)
    → stage_in t (failed ∷ cancelled ∷ escalated ∷ []) ≡ true
    → IsTerminal t × (t ≢ completed)
unfolding given_up stage_in multi_terminal_stages
given_up-IsTerminal intake h = ground arith
given_up-IsTerminal _ h = ground arith

run_counts :
    {s : MultiStage} (r : Run s completed)
    → (entered validate r + after_validate s ≡ entered fix r + 1)
      × (entered review r + after_review s ≡ entered fix r + 1)
      × (entered consolidate r + after_consolidate s ≡ entered fix r + 1)
unfolding entered same given_up after_validate after_review after_consolidate
run_counts stop = (refl, refl, refl)
run_counts (move s t h r) = elim (step_counts s t h) [
  | inl dead ↦
      absurd ((given_up-IsTerminal t dead).1 (Run-terminal r (given_up-IsTerminal t dead).0))
  | inr e ↦ omega (arith, run_counts r)
]

-- The table is about the order of the work: a run that starts at intake and completes has entered
-- validate, review and consolidate each exactly once more often than fix.
pub completed_run_counts :
    (r : Run intake completed)
    → (entered validate r ≡ entered fix r + 1)
      × (entered review r ≡ entered fix r + 1)
      × (entered consolidate r ≡ entered fix r + 1)
unfolding after_validate after_review after_consolidate
completed_run_counts r = omega (arith, run_counts r)
