-- ===== src/Prelude/Lists.antt =====
-- Lists over the native numbers and over texts.
use Prim.Native.Nat.{ℕ, zero, suc, ◌+◌}
use Prim.Native.String.{String}
use mathlib.Core.Path.{◌≡◌, refl, ap}
use mathlib.Core.Bool.{Bool, false, true, ◌||◌}
use mathlib.Core.Option.{Option, none, some}
use mathlib.Core.List.{List, [], ◌∷◌, ◌++◌, map}
use native.Mathlib.Omega.{arith}
use text.Mathlib.Text.{◌==◌}

module _ {ℓ} {A : Type ℓ} where
  abbrev pub length : List A → ℕ
  length [] = 0
  length (x ∷ xs) = suc (length xs)

  -- bool(xs)
  abbrev pub nonempty : List A → Bool
  nonempty [] = false
  nonempty (x ∷ xs) = true

  abbrev pub get_elem? : List A → ℕ → Option A
  get_elem? [] i = none
  get_elem? (x ∷ xs) zero = some x
  get_elem? (x ∷ xs) (suc i) = get_elem? xs i

  pub get_elem?-drop :
      (xs : List A) (y : A) (ys : List A) → get_elem? (xs ++ y ∷ ys) (length xs) ≡ some y
  get_elem?-drop [] y ys = refl
  get_elem?-drop (x ∷ xs) y ys = get_elem?-drop xs y ys

  pub get_elem?-length : (xs : List A) → get_elem? xs (length xs) ≡ none
  get_elem?-length [] = refl
  get_elem?-length (x ∷ xs) = get_elem?-length xs

  pub length-append : (xs ys : List A) → length (xs ++ ys) ≡ length xs + length ys
  length-append [] ys = omega arith
  length-append (x ∷ xs) ys = omega (arith, length-append xs ys)

  pub map-id : (f : A → A) → ((x : A) → f x ≡ x) → (xs : List A) → map f xs ≡ xs
  map-id f h [] = refl
  map-id f h (x ∷ xs) = rw (h x, map-id f h xs)

  abbrev pub All {κ} : (A → Type κ) → List A → Type κ
  All P [] = Unit
  All P (x ∷ xs) = P x × All P xs

pub length-map {ℓ κ} :
    {A : Type ℓ} {B : Type κ} (f : A → B) (xs : List A) → length (map f xs) ≡ length xs
length-map f [] = refl
length-map f (x ∷ xs) = ap (λ n. suc n) (length-map f xs)

module _ {ℓ κ} {A : Type ℓ} (P : A → Type κ) where
  pub all-append : (xs ys : List A) → All P (xs ++ ys) → All P xs × All P ys
  all-append [] ys h = (tt, h)
  all-append (x ∷ xs) ys h = let (p, q) = all-append xs ys h.1 in ((h.0, p), q)

  pub all-imp {ℓ'} : {Q : A → Type ℓ'} → ((x : A) → P x → Q x) → (xs : List A) → All P xs → All Q xs
  all-imp f [] h = tt
  all-imp f (x ∷ xs) h = (f x h.0, all-imp f xs h.1)

  pub all-unmap {ℓ'} :
      {B : Type ℓ'} (f : B → A) (xs : List B) → All P (map f xs) → All (λ x. P (f x)) xs
  all-unmap f [] h = tt
  all-unmap f (x ∷ xs) h = (h.0, all-unmap f xs h.1)

-- `x in xs`, for texts
unfoldable pub contains : List String → String → Bool
contains [] x = false
contains (y ∷ ys) x = y == x || contains ys x
