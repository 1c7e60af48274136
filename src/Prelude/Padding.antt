-- ===== src/Prelude/Padding.antt =====
-- Texts laid out in columns: `f"{s:<{width}}"` and the widths that `max` finds.
use Prim.Native.Nat.{ℕ, zero, suc, ◌-◌, ◌*◌, ◌≤◌}
use Prim.Native.String.{String, ◌++◌, count}
use mathlib.Core.Path.{◌≡◌, refl}
use mathlib.Core.List.{List, [], ◌∷◌, map}
use native.Mathlib.Omega.{arith}
use text.Mathlib.TextLemmas.{length-append}
use ai_native_sweng.Prelude.Tests.{leb, if◌then◌else◌}
use ai_native_sweng.Prelude.Text.{concat}
use ai_native_sweng.Prelude.Lists.{length, All}

unfoldable pub spaces : ℕ → String
spaces zero = ""
spaces (suc n) = " " ++ spaces n

-- f"{s:<{width}}"
unfoldable pub ljust : ℕ → String → String
unfolding spaces
ljust width s = s ++ spaces (width - count s)

unfoldable pub larger : ℕ → ℕ → ℕ
larger m n = if leb m n then n else m

-- max(n, *rest)
unfoldable pub largest : ℕ → List ℕ → ℕ
unfolding larger
largest n [] = n
largest n (m ∷ rest) = largest (larger n m) rest

-- max(xs, default=n)
unfoldable pub largest_or : ℕ → List ℕ → ℕ
unfolding largest
largest_or default [] = default
largest_or default (n ∷ rest) = largest n rest

count-spaces : (n : ℕ) → count (spaces n) ≡ n
unfolding spaces
count-spaces zero = refl
count-spaces (suc n) = omega (arith, length-append " " (spaces n), count-spaces n)

-- A text that fits is padded to the width exactly.
pub count-ljust : (width : ℕ) (s : String) → count s ≤ width → count (ljust width s) ≡ width
unfolding ljust
count-ljust width s fits =
    omega (arith, length-append s (spaces (width - count s)), count-spaces (width - count s))

-- `largest` bounds what it is taken over.
pub largest-start : (n : ℕ) (rest : List ℕ) → n ≤ largest n rest
unfolding largest larger
largest-start n [] = omega arith
largest-start n (m ∷ rest) = ground (arith, largest-start (larger n m) rest)

pub largest-all : (n : ℕ) (rest : List ℕ) → All (λ m. m ≤ largest n rest) rest
unfolding largest larger
largest-all n [] = tt
largest-all n (m ∷ rest) =
    (ground (arith, largest-start (larger n m) rest), largest-all (larger n m) rest)

pub largest_or-all : (n : ℕ) (xs : List ℕ) → All (λ m. m ≤ largest_or n xs) xs
unfolding largest_or
largest_or-all n [] = tt
largest_or-all n (x ∷ xs) = (largest-start x xs, largest-all x xs)

-- A row of padded cells is as wide as its cells together.
pub count-cells :
    (width : ℕ) (cells : List String)
    → All (λ s. count s ≤ width) cells
    → count (concat (map (ljust width) cells)) ≡ length cells * width
unfolding concat
count-cells width [] h = omega arith
count-cells width (s ∷ cells) h = omega (
  arith,
  length-append (ljust width s) (concat (map (ljust width) cells)),
  count-ljust width s h.0,
  count-cells width cells h.1,
)
