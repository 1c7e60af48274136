-- ===== src/Workflow/Engine/Ending.antt =====
-- The single-worker workflow always ends: its table has no cycle.
use ai_native_sweng.Prelude.{
  ℕ, suc, ◌+◌, ◌≤◌, ◌<◌, Bool, true, false, not, ◌&&◌, ◌||◌, [], ◌∷◌, if◌then◌else◌, ltb, eqb,
  Bool-cases, ◌≡◌, ◌⊎◌, inl, inr, refl, arith,
}
use mathlib.Core.Path.{subst}
use ai_native_sweng.Workflow.Engine.{
  Stage, intake, investigate, plan, plan_approval, implement, validate, prepare_result, completed,
  failed, cancelled, escalated, terminal_stages, transitions, stage_in,
}

-- A run from its current stage to a last one, of transitions that the table allows.
pub data Run : Stage → Stage → Type 0 where
  stop : {s : Stage} → Run s s
  move : {u : Stage} (s t : Stage) → stage_in t (transitions s) ≡ true → Run t u → Run s u

-- the number of transitions of a run
pub steps : {s u : Stage} → Run s u → ℕ
steps stop = 0
steps (move s t h r) = suc (steps r)

-- the most transitions that can follow a stage
left : Stage → ℕ
left intake = 7
left investigate = 6
left plan = 5
left plan_approval = 4
left implement = 3
left validate = 2
left prepare_result = 1
left _ = 0

given_up : Stage → Bool
given_up t = stage_in t (failed ∷ cancelled ∷ escalated ∷ [])

-- A transition gives up, or goes exactly one stage further.
checked : Stage → Stage → Bool
checked s t =
    not (stage_in t (transitions s))
    || (if given_up t then ltb 0 (left s) && eqb (left t) 0 else eqb (left s) (suc (left t)))

for_all : (Stage → Bool) → Bool
for_all p =
    p intake
    && p investigate
    && p plan
    && p plan_approval
    && p implement
    && p validate
    && p prepare_result
    && p completed
    && p failed
    && p cancelled
    && p escalated

for_all_sound : (p : Stage → Bool) → for_all p ≡ true → (s : Stage) → p s ≡ true
unfolding for_all
for_all_sound p h intake = ground arith
for_all_sound p h _ = ground arith

checked_table : for_all (λ s. for_all (λ t. checked s t)) ≡ true
unfolding for_all checked given_up left transitions stage_in
checked_table = refl

-- The facts of one transition.
Advances : Stage → Stage → Type 0
Advances s t =
    (given_up t ≡ true) × (left t < left s) ⊎ (given_up t ≡ false) × (left s ≡ suc (left t))

checked-Advances :
    (s t : Stage) → stage_in t (transitions s) ≡ true → checked s t ≡ true → Advances s t
unfolding checked Advances
checked-Advances s t h c = elim (Bool-cases (given_up t)) [
  | inl g ↦ inl (g, ground arith)
  | inr g ↦ inr (g, ground arith)
]

move-Advances : (s t : Stage) → stage_in t (transitions s) ≡ true → Advances s t
move-Advances s t h =
    checked-Advances s t h
      (for_all_sound (checked s) (for_all_sound (λ x. for_all (checked x)) checked_table s) t)

left-lt : (s t : Stage) → stage_in t (transitions s) ≡ true → left t < left s
unfolding Advances
left-lt s t h = elim (move-Advances s t h) [ inl a ↦ a.1 | inr a ↦ omega arith ]

steps-le-left : {s u : Stage} (r : Run s u) → steps r + left u ≤ left s
unfolding steps
steps-le-left stop = omega arith
steps-le-left (move s t h r) = omega (arith, steps-le-left r, left-lt s t h)

left-le : (s : Stage) → left s ≤ 7
unfolding left
left-le intake = omega arith
left-le _ = omega arith

-- A stage is terminal or can be left.
GoesOn : Stage → Type 0
GoesOn s = (stage_in s terminal_stages ≡ true) ⊎ ((t : Stage) × (stage_in t (transitions s) ≡ true))

goes_on : (s : Stage) → GoesOn s
unfolding GoesOn terminal_stages transitions stage_in
goes_on intake = inr (cancelled, refl)
goes_on investigate = inr (cancelled, refl)
goes_on plan = inr (cancelled, refl)
goes_on plan_approval = inr (cancelled, refl)
goes_on implement = inr (cancelled, refl)
goes_on validate = inr (cancelled, refl)
goes_on prepare_result = inr (cancelled, refl)
goes_on _ = inl refl

-- The stage that gave up cannot be left.
given_up-stays : (s t : Stage) → given_up s ≡ true → stage_in t (transitions s) ≡ true → ⊥
unfolding given_up transitions stage_in
given_up-stays intake t g h = cc
given_up-stays _ t g h = ground arith

given_up-end : {s u : Stage} (r : Run s u) → given_up s ≡ true → s ≡ u
given_up-end stop g = refl
given_up-end (move s t h r) g = absurd (given_up-stays s t g h)

steps-eq-left : {s : Stage} (r : Run s completed) → steps r ≡ left s
unfolding steps left Advances given_up stage_in
steps-eq-left stop = refl
steps-eq-left (move s t h r) = elim (move-Advances s t h) [
  | inl a ↦ absurd (completed_gave_up (subst (λ x. given_up x ≡ true) (given_up-end r a.0) a.0))
  | inr a ↦ omega (arith, steps-eq-left r, a.1)
]
  where
    completed_gave_up : given_up completed ≡ true → ⊥
    completed_gave_up e = cc

-- Whatever transitions are taken, the workflow ends: no run takes more than seven, and where a run
-- stands it is at a terminal stage or can go on.
pub steps_bounds :
    {s u : Stage} (r : Run s u)
    → (steps r ≤ 7)
      × ((stage_in u terminal_stages ≡ true) ⊎ ((t : Stage) × (stage_in t (transitions u) ≡ true)))
unfolding GoesOn
steps_bounds {s} {u} r = (omega (arith, steps-le-left r, left-le s), goes_on u)

-- A run from intake that completes takes every stage once: exactly seven transitions.
pub completed-steps : (r : Run intake completed) → steps r ≡ 7
unfolding left
completed-steps r = steps-eq-left r
