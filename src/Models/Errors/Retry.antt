-- ===== src/Models/Errors/Retry.antt =====
-- Which failures of a call a caller may try again.
use ai_native_sweng.Prelude.{
  ℕ, ◌≤◌, Bool, true, false, ◌≡◌, ◌⊎◌, ◌↔◌, refl, Result, ok, err, Error, provider_error,
  model_timeout_error, ◌>>=◌, arith, traverse, List, [], ◌∷◌,
}
use ai_native_sweng.Models.Errors.{
  classify_retryable_status, Sent, answered, api_timeout, api_status, api_connection, other_error,
  normalized,
}

-- the exceptions that say that they are retryable
abbrev pub says_retryable : Error → Bool
says_retryable model_timeout_error = true
says_retryable (provider_error retryable status) = retryable
says_retryable _ = false

unfoldable pub raises_retryable {ℓ} : {A : Type ℓ} → Result A → Bool
raises_retryable (ok a) = false
raises_retryable (err e) = says_retryable e

-- What passes by itself: no answer in time, no connection, a conflict, too many requests, and
-- whatever went wrong on the server.
unfoldable pub IsTransient {ℓ} : {A : Type ℓ} → Sent A → Type 0
IsTransient (answered a) = ⊥
IsTransient api_timeout = Unit
IsTransient (api_status code) = (code ≡ 408) ⊎ (code ≡ 409) ⊎ (code ≡ 429) ⊎ (500 ≤ code)
IsTransient api_connection = Unit
IsTransient (other_error e) = ⊥

pub classify_retryable_status_iff :
    (code : ℕ)
    → (classify_retryable_status code ≡ true)
      ↔ ((code ≡ 408) ⊎ (code ≡ 409) ⊎ (code ≡ 429) ⊎ (500 ≤ code))
unfolding classify_retryable_status
classify_retryable_status_iff code = ((λ h. ground arith), (λ h. ground arith))

-- A call of an SDK, and code that reads the answer and raises nothing retryable.
pub raises_retryable-normalized {ℓ κ} :
    {A : Type ℓ} {B : Type κ} (s : Sent A) (read : A → Result B)
    → ((a : A) → raises_retryable (read a) ≡ false)
    → ((e : Error) → s ≡ other_error e → says_retryable e ≡ false)
    → (raises_retryable (normalized s >>= read) ≡ true) ↔ IsTransient s
unfolding raises_retryable normalized IsTransient
raises_retryable-normalized (answered a) read h k = ((λ e. ground (arith, h a, e)), (λ t. absurd t))
raises_retryable-normalized api_timeout read h k = ((λ e. tt), (λ t. refl))
raises_retryable-normalized (api_status code) read h k = classify_retryable_status_iff code
raises_retryable-normalized api_connection read h k = ((λ e. tt), (λ t. refl))
raises_retryable-normalized (other_error e) read h k =
    ((λ p. ground (arith, k e refl, p)), (λ t. absurd t))

-- Steps that raise nothing retryable.
unfoldable pub IsCalm : {A : Type 0} → Result A → Type 0
IsCalm r = raises_retryable r ≡ false

pub bind-IsCalm :
    {A B : Type 0} (r : Result A) (f : A → Result B)
    → IsCalm r
    → ((a : A) → IsCalm (f a))
    → IsCalm (r >>= f)
unfolding IsCalm raises_retryable
bind-IsCalm (ok a) f p q = q a
bind-IsCalm (err e) f p q = p

pub traverse-IsCalm :
    {A B : Type 0} (f : A → Result B)
    → ((a : A) → IsCalm (f a))
    → (xs : List A) → IsCalm (traverse f xs)
unfolding IsCalm raises_retryable traverse
traverse-IsCalm f h [] = refl
traverse-IsCalm f h (x ∷ xs) =
    bind-IsCalm (f x) _ (h x)
      (λ y. bind-IsCalm (traverse f xs) _ (traverse-IsCalm f h xs) (λ ys. refl))
