-- ===== src/Reliability/Retries/Taxonomy.antt =====
-- The retry policy covers the failure taxonomy.
use ai_native_sweng.Prelude.{
  String, Bool, true, false, Option, none, some, List, [], ◌∷◌, ◌≡◌, refl, contains, eqb, arith,
  not, sym, map, ◌&&◌, ◌||◌, if◌then◌else◌, Bool-cases, inl, inr, eq_iff, ◌==◌,
}
use mathlib.Core.Path.{subst}
use ai_native_sweng.Reliability.Records.{RetryMode, escalate}
use ai_native_sweng.Reliability.Retries.{
  canonical_failure_classes, outcome_rules, RetryRule, default_retry_policy, rule_for,
}

unfoldable pub is_escalation : RetryMode → Bool
is_escalation escalate = true
is_escalation _ = false

-- the rule of the class, and whether it is for a human exactly when it grants no attempt
pub HasRule : String → Type 0
HasRule c =
    (r : RetryRule) × (rule_for c default_retry_policy ≡ some r)
    × (is_escalation r.mode ≡ eqb r.max_attempts 0)

same : Bool → Bool → Bool
same a b = if a then b else not b

same-equal : (a b : Bool) → same a b ≡ true → a ≡ b
unfolding same
same-equal true b h = sym h
same-equal false true h = h
same-equal false false h = refl

has_rule : Option RetryRule → Bool
has_rule none = false
has_rule (some r) = same (is_escalation r.mode) (eqb r.max_attempts 0)

all_of : (String → Bool) → List String → Bool
all_of f [] = true
all_of f (x ∷ xs) = f x && all_of f xs

all_of-contains :
    (f : String → Bool) (xs : List String) (x : String)
    → all_of f xs ≡ true
    → contains xs x ≡ true
    → f x ≡ true
unfolding all_of contains
all_of-contains f [] x h k = ground (arith, k)
all_of-contains f (y ∷ ys) x h k = elim (Bool-cases (y == x)) [
  | inl equal ↦ subst (λ z. f z ≡ true) ((eq_iff y x).0 equal) (ground (arith, h))
  | inr other ↦ all_of-contains f ys x (ground (arith, h)) (rw other at k)
]

has_rule-HasRule :
    (c : String) (o : Option RetryRule)
    → rule_for c default_retry_policy ≡ o
    → has_rule o ≡ true
    → HasRule c
unfolding HasRule has_rule
has_rule-HasRule c none e h = ground (arith, h)
has_rule-HasRule c (some r) e h = (r, e, same-equal (is_escalation r.mode) (eqb r.max_attempts 0) h)

covered : all_of (λ c. has_rule (rule_for c default_retry_policy)) canonical_failure_classes ≡ true
unfolding canonical_failure_classes has_rule rule_for default_retry_policy is_escalation all_of same
covered = refl

canonical :
    all_of (contains canonical_failure_classes) (map (λ r. r.failure_class) outcome_rules) ≡ true
unfolding canonical_failure_classes outcome_rules contains all_of
canonical = refl

-- Every canonical failure class has a rule in the default retry policy, which leaves the failure to
-- a human exactly when it grants no attempt; and every class that a rule on termination reasons names
-- is canonical, so that it has such a rule.
pub default_retry_policy_lem :
    (c : String)
    → (contains canonical_failure_classes c
        || contains (map (λ r. r.failure_class) outcome_rules) c)
      ≡ true
    → (contains canonical_failure_classes c ≡ true) × HasRule c
default_retry_policy_lem c known = (is_canonical, ruled)
  where
    is_canonical : contains canonical_failure_classes c ≡ true
    is_canonical = elim (Bool-cases (contains canonical_failure_classes c)) [
      | inl direct ↦ direct
      | inr indirect ↦
          all_of-contains (contains canonical_failure_classes)
            (map (λ r. r.failure_class) outcome_rules) c canonical (rw indirect at known)
    ]

    ruled : HasRule c
    ruled = has_rule-HasRule c (rule_for c default_retry_policy) refl (
        all_of-contains (λ d. has_rule (rule_for d default_retry_policy)) canonical_failure_classes
          c covered is_canonical)
