-- ===== src/Workflow/Plan/Texts/Steps.antt =====
-- The steps of a plan survive being handed on as lines of a text.
use ai_native_sweng.Prelude.{
  String, List, [], ◌∷◌, ◌≡◌, refl, ap, ◌∙◌, ◌==◌, All, join, strip, strip_idem, strip-IsUnbroken,
  splitlines, splitlines-IsUnbroken, splitlines-join, IsLine, IsUnbroken, is_break, Bool-cases, inl,
  inr, all-imp,
}
use ai_native_sweng.Workflow.Plan.Texts.{stripped_steps, plan_steps_from_text}

-- a line that is not blank, with no white space around it
pub IsStep : String → Type 0
IsStep s = IsLine s × (strip s ≡ s)

stripped_steps-IsStep :
    (lines : List String) → All (IsUnbroken is_break) lines → All IsStep (stripped_steps lines)
unfolding stripped_steps IsStep IsLine
stripped_steps-IsStep [] h = tt
stripped_steps-IsStep (line ∷ rest) h = elim (Bool-cases (strip line == "")) [
  | inl blank ↦ rw blank (stripped_steps-IsStep rest h.1)
  | inr step ↦ rw step (
    ((step, strip-IsUnbroken is_break line h.0), strip_idem line),
    stripped_steps-IsStep rest h.1,
  )
]

stripped_steps-steps : (steps : List String) → All IsStep steps → stripped_steps steps ≡ steps
unfolding stripped_steps IsStep IsLine
stripped_steps-steps [] h = refl
stripped_steps-steps (s ∷ steps) h =
    rw (h.0.1) (rw (h.0.0.0) (ap (◌∷◌ s) (stripped_steps-steps steps h.1)))

-- Every step that is read from a text is a line that is not blank and has no white space around it;
-- and the steps, joined as lines, are read back as they are.
pub plan_steps_from_text_lem :
    (text : String)
    → All IsStep (plan_steps_from_text text)
      × (plan_steps_from_text (join "\n" (plan_steps_from_text text)) ≡ plan_steps_from_text text)
unfolding plan_steps_from_text IsStep
plan_steps_from_text_lem text =
    let steps = stripped_steps-IsStep (splitlines text) (splitlines-IsUnbroken text) in
    (
      steps,
      ap stripped_steps (
            splitlines-join (stripped_steps (splitlines text))
              (all-imp IsStep (λ s h. h.0) _ steps))
          ∙ stripped_steps-steps (stripped_steps (splitlines text)) steps,
    )
