-- ===== src/Models/Factory/Chosen.antt =====
-- Which adapter a configuration chooses, and when it chooses none.
use ai_native_sweng.Prelude.{
  String, false, ◌∙◌, none, some, [], ◌∷◌, ◌≡◌, ◌⊎◌, inl, inr, refl, ◌==◌, eq_iff, sym, contains,
  Result, ok, err, config_error, arith,
}
use ai_native_sweng.Models.Factory.{ModelConfig, CostTable, Constructors}

-- the choice itself, as an adapter
pub data Choice : Type 0 where
  chosen : (kind setting : String) (cost : CostTable) → Choice

abbrev pub choices : Constructors Choice
choices = record {
  scripted = λ path cost. ok (chosen "scripted" path cost);
  replay = λ path cost. ok (chosen "replay" path cost);
  anthropic = λ model cost. ok (chosen "anthropic" model cost);
  openai = λ model cost. ok (chosen "openai" model cost);
  gemini = λ model cost. ok (chosen "gemini" model cost);
}

-- What a configuration needs and lacks.
unfoldable pub Lacks : ModelConfig → Type 0
Lacks c =
    ((c.mode ≡ "scripted") × (c.script_path ≡ none))
    ⊎ ((c.mode ≡ "replay") × (c.trace_path ≡ none))
    ⊎ ((c.mode ≡ "live") × (c.model ≡ ""))
    ⊎ ((c.mode ≡ "live") × (contains ("anthropic" ∷ "openai" ∷ "gemini" ∷ []) c.provider ≡ false))

-- What a configuration has, and the choice that it makes.
unfoldable pub Chooses : ModelConfig → Choice → Type 0
Chooses c (chosen kind setting cost) =
    (cost ≡ c.cost_table)
    × (((c.mode ≡ kind) × (c.script_path ≡ some setting) × (kind ≡ "scripted"))
        ⊎ ((c.mode ≡ kind) × (c.trace_path ≡ some setting) × (kind ≡ "replay"))
        ⊎ ((c.mode ≡ "live") × (c.provider ≡ kind) × (c.model ≡ setting)))

-- Either a choice that the configuration makes, and it lacks nothing, or the error and what it lacks.
unfoldable pub IsChoice : ModelConfig → Result Choice → Type 0
IsChoice c (ok a) = Chooses c a × ¬ Lacks c
IsChoice c (err e) = (e ≡ config_error) × Lacks c

other_text : (s t m : String) → (s == t) ≡ false → m ≡ s → m ≡ t → ⊥
other_text s t m differ e k = ground (arith, differ, (eq_iff s t).1 (sym e ∙ k))

scripted_complete :
    (c : ModelConfig) (path : String) → c.mode ≡ "scripted" → c.script_path ≡ some path → ¬ Lacks c
unfolding Lacks
scripted_complete c path m p (inl (k, absent)) = absurd (ground (arith, p, absent))
scripted_complete c path m p (inr (inl (k, absent))) =
    other_text "scripted" "replay" c.mode refl m k
scripted_complete c path m p (inr (inr (inl (k, absent)))) =
    other_text "scripted" "live" c.mode refl m k
scripted_complete c path m p (inr (inr (inr (k, absent)))) =
    other_text "scripted" "live" c.mode refl m k
