-- ===== src/Prelude/Results.antt =====
-- A call that may raise returns a `Result`. An exception is modelled by its class, with the data
-- that a handler reads; the text of its message is not modelled.
use Prim.Native.String.{String}
use Prim.Native.Nat.{ℕ}
use mathlib.Core.Option.{Option}
use mathlib.Core.Path.{◌≡◌, refl}
use mathlib.Core.Bool.{Bool, true, false}
use text.Mathlib.Text.{◌==◌}
use ai_native_sweng.Prelude.Tests.{if◌then◌else◌}
use mathlib.Core.List.{List, [], ◌∷◌, map}

pub data Error : Type 0 where
  -- Python's own
  key_error : String → Error
  type_error value_error attribute_error index_error permission_error : Error
  json_decode_error file_not_found_error called_process_error : Error
  -- the harness's
  state_schema_error : Error
  finding_schema_error : Error
  evaluation_error dataset_error : Error
  invalid_multi_transition_error : Error
  integration_error : (retryable : Bool) → Error
  patch_integration_error worker_error : Error
  replay_exhausted_error replay_mismatch_error : Error
  script_exhausted_error script_mismatch_error : Error
  config_error runtime_error : Error
  model_timeout_error : Error
  provider_error : (retryable : Bool) (status_code : Option ℕ) → Error

pub data Result {ℓ} (A : Type ℓ) : Type ℓ where
  ok : A → Result A
  err : Error → Result A

-- `if not test: raise failure`
abbrev pub guard : (test : Bool) (failure : Error) → Result (Unit {0})
guard false failure = err failure
guard true failure = ok tt

module _ {ℓ κ} {A : Type ℓ} {B : Type κ} where
  -- The statements after a call run on what it returns, unless it raises.
  infixl 5 ◌>>=◌
  abbrev pub ◌>>=◌ : (call : Result A) (rest : A → Result B) → Result B
  ◌>>=◌ (err raised) rest = err raised
  ◌>>=◌ (ok value) rest = rest value

infixl 5 ◌>>◌
abbrev pub ◌>>◌ {κ} : {B : Type κ} (check : Result (Unit {0})) (rest : Result B) → Result B
◌>>◌ check rest = check >>= λ done. rest

module _ {ℓ κ} {A : Type ℓ} {B : Type κ} where
  -- A list comprehension whose body may raise: the first exception escapes.
  unfoldable pub traverse : (A → Result B) → List A → Result (List B)
  traverse f [] = ok []
  traverse f (x ∷ xs) = do y ← f x; ys ← traverse f xs; ok (y ∷ ys)

-- Reading back what was written, item by item.
pub traverse-map {ℓ κ} :
    {A : Type ℓ} {B : Type κ} (f : B → Result A) (g : A → B)
    → ((x : A) → f (g x) ≡ ok x)
    → (xs : List A) → traverse f (map g xs) ≡ ok xs
unfolding traverse
traverse-map f g p [] = refl
traverse-map f g p (x ∷ xs) = rw (p x, traverse-map f g p xs)

-- `Enum(value)`: the member with that value.
module _ {ℓ} {A : Type ℓ} (value : A → String) where
  unfoldable pub member : List A → String → Result A
  member [] s = err value_error
  member (x ∷ xs) s = if value x == s then ok x else member xs s
