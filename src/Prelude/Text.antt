-- ===== src/Prelude/Text.antt =====
-- Building texts: f-strings, `str.join` and the decimal notation of a number.
use Prim.Native.Nat.{ℕ, zero, suc, ◌+◌, ◌-◌, ◌*◌, ◌/◌, ◌%◌, ◌<◌}
use Prim.Native.Char.{code}
use Prim.Native.String.{String, ◌++◌, count}
use mathlib.Core.Path.{◌≡◌, ap, sym, ◌∙◌}
use mathlib.Core.List.{List, [], ◌∷◌}
use mathlib.Core.Bool.{Bool, ◌||◌}
use text.Mathlib.Text.{◌==◌, starts_with}
use native.Mathlib.Omega.{arith}
use ai_native_sweng.Prelude.Tests.{ltb, if◌then◌else◌, Bool-cases, ltb→lt}
use mathlib.Core.Logic.{inl, inr}
use text.Mathlib.TextLemmas.{nil-append, cons-append, append_assoc}

-- f"...": the texts of its parts, joined
unfoldable pub concat : List String → String
concat [] = ""
concat (s ∷ rest) = s ++ concat rest

-- `t in s`
unfoldable pub is_in : String → String → Bool
is_in t String.[] = t == ""
is_in t (String.◌∷◌ c s) = starts_with (String.◌∷◌ c s) t || is_in t s

unfoldable pub join : String → List String → String
join sep [] = ""
join sep (s ∷ []) = s
join sep (s ∷ t ∷ rest) = s ++ (sep ++ join sep (t ∷ rest))

unfoldable pub digit : ℕ → String
digit zero = "0"
digit (suc zero) = "1"
digit (suc (suc zero)) = "2"
digit (suc (suc (suc zero))) = "3"
digit (suc (suc (suc (suc zero)))) = "4"
digit (suc (suc (suc (suc (suc zero))))) = "5"
digit (suc (suc (suc (suc (suc (suc zero)))))) = "6"
digit (suc (suc (suc (suc (suc (suc (suc zero))))))) = "7"
digit (suc (suc (suc (suc (suc (suc (suc (suc zero)))))))) = "8"
digit (suc (suc (suc (suc (suc (suc (suc (suc (suc n))))))))) = "9"

-- Each round drops a digit, so `suc n` rounds are enough.
unfoldable pub decimal_from : ℕ → ℕ → String → String
decimal_from zero n acc = acc
decimal_from (suc fuel) n acc =
    let rest = decimal_from fuel (n / 10) (digit (n % 10) ++ acc) in
    if ltb n 10 then digit n ++ acc else rest

-- f"{n}"
unfoldable pub decimal : ℕ → String
unfolding decimal_from digit
decimal n = decimal_from (suc n) n ""

unfoldable pub zeros : ℕ → String
zeros zero = ""
zeros (suc n) = "0" ++ zeros n

-- f"{n:04d}"
unfoldable pub decimal4 : ℕ → String
unfolding decimal zeros
decimal4 n = zeros (4 - count (decimal n)) ++ decimal n

-- The number that a text of digits reads.
value_from : ℕ → String → ℕ
value_from acc String.[] = acc
value_from acc (String.◌∷◌ c s) = value_from (acc * 10 + (code c - 48)) s

value_from-digit :
    (acc d : ℕ) (s : String) → d < 10 → value_from acc (digit d ++ s) ≡ value_from (acc * 10 + d) s
unfolding value_from digit
value_from-digit acc zero s h = rw (cons-append, nil-append)
value_from-digit acc (suc zero) s h = rw (cons-append, nil-append)
value_from-digit acc (suc (suc zero)) s h = rw (cons-append, nil-append)
value_from-digit acc (suc (suc (suc zero))) s h = rw (cons-append, nil-append)
value_from-digit acc (suc (suc (suc (suc zero)))) s h = rw (cons-append, nil-append)
value_from-digit acc (suc (suc (suc (suc (suc zero))))) s h = rw (cons-append, nil-append)
value_from-digit acc (suc (suc (suc (suc (suc (suc zero)))))) s h = rw (cons-append, nil-append)
value_from-digit acc (suc (suc (suc (suc (suc (suc (suc zero))))))) s h =
    rw (cons-append, nil-append)
value_from-digit acc (suc (suc (suc (suc (suc (suc (suc (suc zero)))))))) s h =
    rw (cons-append, nil-append)
value_from-digit acc (suc (suc (suc (suc (suc (suc (suc (suc (suc zero))))))))) s h =
    rw (cons-append, nil-append)
value_from-digit acc (suc (suc (suc (suc (suc (suc (suc (suc (suc (suc d)))))))))) s h =
    absurd (omega arith)

-- A start that the digits written so far do not change: `value_from` over `decimal_from`.
value_from-decimal_from :
    (fuel n : ℕ) (acc : String)
    → n < fuel
    → value_from 0 (decimal_from fuel n acc) ≡ value_from n acc
unfolding decimal_from
value_from-decimal_from zero n acc h = absurd (omega arith)
value_from-decimal_from (suc fuel) n acc h = elim (Bool-cases (ltb n 10)) [
  | inl small ↦
      rw small
        (value_from-digit 0 n acc (ltb→lt n 10 small) ∙ ap (λ m. value_from m acc) (omega arith))
  | inr large ↦ rw large (
      value_from-decimal_from fuel (n / 10) (digit (n % 10) ++ acc) (ground arith)
      ∙ (value_from-digit (n / 10) (n % 10) acc (omega arith)
          ∙ ap (λ m. value_from m acc) (omega arith)))
]

value_from-zeros : (k : ℕ) (s : String) → value_from 0 (zeros k ++ s) ≡ value_from 0 s
unfolding zeros value_from digit
value_from-zeros zero s = rw nil-append
value_from-zeros (suc k) s =
    rw append_assoc (value_from-digit 0 0 (zeros k ++ s) (omega arith) ∙ value_from-zeros k s)

-- Zero-padded numbers are told apart.
pub decimal4-injective : (m n : ℕ) → decimal4 m ≡ decimal4 n → m ≡ n
unfolding decimal4 value_from
decimal4-injective m n e = sym (value m) ∙ (ap (value_from 0) e ∙ value n)
  where
    value : (k : ℕ) → value_from 0 (decimal4 k) ≡ k
    value k =
        value_from-zeros (4 - count (decimal k)) (decimal k)
        ∙ value_from-decimal_from (suc k) k "" (omega arith)

pub decimal-injective : (m n : ℕ) → decimal m ≡ decimal n → m ≡ n
unfolding decimal value_from
decimal-injective m n e = sym (value m) ∙ (ap (value_from 0) e ∙ value n)
  where
    value : (k : ℕ) → value_from 0 (decimal k) ≡ k
    value k = value_from-decimal_from (suc k) k "" (omega arith)
