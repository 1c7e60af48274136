-- ===== src/Workers/Contract/Separation.antt =====
-- What the three contracts allow and prohibit.
use ai_native_sweng.Prelude.{String, List, [], ◌∷◌, ◌≡◌, refl, contains, not, ◌&&◌, arith, eq_iff}
use ai_native_sweng.Json.Value.{ℤ, Float}
use ai_native_sweng.Workers.Contract.Roles.{
  read_only_capabilities, write_capabilities, without, reviewer_contract,
}

contains-without :
    (x : String) (xs ys : List String)
    → contains (without xs ys) x ≡ (contains xs x && not (contains ys x))
unfolding contains without
contains-without x [] ys = refl
contains-without x (y ∷ xs) ys = ground (arith, contains-without x xs ys, eq_iff y x)

-- Whatever the concern and the limits, a reviewer is allowed exactly the read-only capabilities, and
-- every capability of the write registry is either read-only or prohibited to it, never both.
pub reviewer_contract-separation :
    (concern : String) (cost : Float) (limit : ℤ) (x : String)
    → (contains (reviewer_contract concern cost limit).allowed_capabilities x
        ≡ contains read_only_capabilities x)
      × (contains (reviewer_contract concern cost limit).prohibited_capabilities x ≡ (
          contains write_capabilities x
          && not (contains (reviewer_contract concern cost limit).allowed_capabilities x)))
unfolding reviewer_contract
reviewer_contract-separation concern cost limit x =
    (refl, contains-without x write_capabilities read_only_capabilities)
