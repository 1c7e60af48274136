-- ===== src/Policy/Commands/Consistent.antt =====
-- The command policy agrees with the policy matrix, and its rules stand in the order that lets the
-- first match decide.
use ai_native_sweng.Prelude.{
  ℕ, String, Bool, true, not, ◌&&◌, ◌||◌, ◌==◌, leb, leb→le, ◌≡◌, ◌≤◌, refl, sym, ap, ◌∙◌, Option,
  none, some, List, [], ◌∷◌, ◌++◌, ok, arith,
}
use ai_native_sweng.Security.Matrix.{
  trusted_internal, untrusted_external, decision_rank, MatrixResult, default_matrix, rows_of,
  is_untrusted, row_at, matrix_lookup, class_value, repo_value,
}
use ai_native_sweng.Policy.Commands.{
  CommandClass, read_only, validation, mutating, destructive, networked, prohibited, PolicyOutcome,
  class_outcome, command_capability, outcome_decision, CommandRule, default_rules,
}

-- In the default matrix the capability of every command class is decided on: in a trusted repository
-- exactly as the class's default outcome says, and in an untrusted one at least as restrictively.
pub class_outcome_lem :
    (c : CommandClass)
    → (r r' : MatrixResult) × (matrix_lookup default_matrix (command_capability c) trusted_internal
        ≡ ok r)
      × (matrix_lookup default_matrix (command_capability c) untrusted_external ≡ ok r')
      × (r.decision ≡ outcome_decision (class_outcome c))
      × (decision_rank (outcome_decision (class_outcome c)) ≤ decision_rank r'.decision)
unfolding matrix_lookup default_matrix rows_of is_untrusted row_at class_value repo_value
    decision_rank class_outcome command_capability outcome_decision
class_outcome_lem read_only = (_, _, refl, refl, refl, omega arith)
class_outcome_lem validation = (_, _, refl, refl, refl, omega arith)
class_outcome_lem mutating = (_, _, refl, refl, refl, omega arith)
class_outcome_lem destructive = (_, _, refl, refl, refl, omega arith)
class_outcome_lem networked = (_, _, refl, refl, refl, omega arith)
class_outcome_lem prohibited = (_, _, refl, refl, refl, omega arith)

-- the order of the classes by consequence
unfoldable pub class_rank : CommandClass → ℕ
class_rank read_only = 0
class_rank validation = 1
class_rank mutating = 2
class_rank destructive = 3
class_rank networked = 4
class_rank prohibited = 5

-- the outcome of a rule: its own, or its class's
unfoldable pub rule_outcome : CommandRule → PolicyOutcome
unfolding class_outcome
rule_outcome r = elim r.outcome [ some o ↦ o | none ↦ class_outcome r.command_class ]

unfoldable pub either_open : Option String → Option String → Bool
either_open none _ = true
either_open (some s) none = true
either_open (some s) (some t) = s == t

-- the rules are for one executable, and not for two subcommands of it
unfoldable pub overlap : CommandRule → CommandRule → Bool
unfolding either_open
overlap r s = r.executable == s.executable && either_open r.subcommand s.subcommand

-- the later rule is of no greater consequence, and has no more restrictive outcome
unfoldable pub dominated : CommandRule → CommandRule → Bool
unfolding class_rank rule_outcome decision_rank outcome_decision
dominated r s =
    leb (class_rank s.command_class) (class_rank r.command_class)
    && leb (decision_rank (outcome_decision (rule_outcome s)))
        (decision_rank (outcome_decision (rule_outcome r)))

unfoldable pub dominates_later : CommandRule → List CommandRule → Bool
unfolding overlap dominated
dominates_later r [] = true
dominates_later r (s ∷ rest) = (not (overlap r s) || dominated r s) && dominates_later r rest

unfoldable pub ordered : List CommandRule → Bool
unfolding dominates_later
ordered [] = true
ordered (r ∷ rest) = dominates_later r rest && ordered rest

dominates_later-member :
    (r s : CommandRule) (middle after : List CommandRule)
    → dominates_later r (middle ++ s ∷ after) ≡ true
    → overlap r s ≡ true
    → dominated r s ≡ true
unfolding dominates_later
dominates_later-member r s [] after h o = ground (arith, h, o)
dominates_later-member r s (x ∷ middle) after h o =
    dominates_later-member r s middle after (ground (arith, h)) o

ordered-pair :
    (before : List CommandRule) (r : CommandRule) (middle : List CommandRule) (s : CommandRule)
    (after : List CommandRule)
    → ordered (before ++ r ∷ (middle ++ s ∷ after)) ≡ true
    → overlap r s ≡ true
    → dominated r s ≡ true
unfolding ordered
ordered-pair [] r middle s after h o = dominates_later-member r s middle after (ground (arith, h)) o
ordered-pair (x ∷ before) r middle s after h o =
    ordered-pair before r middle s after (ground (arith, h)) o

split_dominated :
    (r s : CommandRule)
    → dominated r s ≡ true
    → (class_rank s.command_class ≤ class_rank r.command_class)
      × (decision_rank (outcome_decision (rule_outcome s))
          ≤ decision_rank (outcome_decision (rule_outcome r)))
unfolding dominated
split_dominated r s h = (
  leb→le (class_rank s.command_class) (class_rank r.command_class) (ground (arith, h)),
  leb→le (decision_rank (outcome_decision (rule_outcome s)))
      (decision_rank (outcome_decision (rule_outcome r))) (ground (arith, h)),
)

-- Of two default rules for one executable whose subcommands do not exclude each other, the first is
-- of a class of at least the same consequence, and has an outcome that is at least as restrictive.
pub default_rules-ordered :
    (before : List CommandRule) (r : CommandRule) (middle : List CommandRule) (s : CommandRule)
    (after : List CommandRule)
    → default_rules ≡ before ++ r ∷ (middle ++ s ∷ after)
    → overlap r s ≡ true
    → (class_rank s.command_class ≤ class_rank r.command_class)
      × (decision_rank (outcome_decision (rule_outcome s))
          ≤ decision_rank (outcome_decision (rule_outcome r)))
unfolding dominated ordered default_rules
default_rules-ordered before r middle s after split o =
    split_dominated r s
      (ordered-pair before r middle s after (sym (ap ordered split) ∙ all_ordered) o)
  where
    all_ordered : ordered default_rules ≡ true
    all_ordered = refl
