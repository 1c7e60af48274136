-- ===== src/Security/Matrix/Switch.antt =====
-- A disabled capability stays disabled.
use ai_native_sweng.Prelude.{
  String, List, [], ◌∷◌, ◌++◌, ◌≡◌, not, ◌||◌, ◌&&◌, ◌==◌, contains, arith, eq_iff, eq_refl,
}
use ai_native_sweng.Security.Matrix.{Shutdown, disable, enabled}

contains-snoc :
    (xs : List String) (y x : String) → contains (xs ++ y ∷ []) x ≡ (contains xs x || y == x)
unfolding contains
contains-snoc [] y x = ground arith
contains-snoc (z ∷ xs) y x = ground (arith, contains-snoc xs y x)

-- Disabling a capability disables that one and no other, whatever was disabled before, and a second
-- time changes nothing.
pub enabled-disable :
    (id x : String) (disabled : Shutdown)
    → (enabled x (disable id disabled) ≡ (enabled x disabled && not (id == x)))
      × (disable id (disable id disabled) ≡ disable id disabled)
unfolding enabled disable
enabled-disable id x disabled = (
  ground (arith, contains-snoc disabled id x, eq_iff id x),
  ground (arith, contains-snoc disabled id id, eq_refl id),
)
