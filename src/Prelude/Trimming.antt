-- ===== src/Prelude/Trimming.antt =====
-- `str.strip` is idempotent, and `str.splitlines` gives back lines that are joined again.
use Prim.Native.Nat.{ℕ}
use Prim.Native.Char.{Char, code}
use Prim.Native.String.{String}
use mathlib.Core.Path.{◌≡◌, refl, ap, sym, ◌∙◌}
use mathlib.Core.Logic.{inl, inr}
use mathlib.Core.Bool.{Bool, false, ◌&&◌}
use mathlib.Core.List.{List, [], ◌∷◌}
use native.Mathlib.Omega.{arith}
use text.Mathlib.Text.{◌==◌}
use text.Mathlib.TextLemmas.{append-nil, cons-ne-nil, tail-eq_of_cons-eq}
use ai_native_sweng.Prelude.Tests.{eqb, Bool-cases}
use ai_native_sweng.Prelude.Text.{join}
use ai_native_sweng.Prelude.Lists.{All}
use ai_native_sweng.Prelude.Whitespace.{
  is_space, lstrip, keep_front, rstrip, strip, onto_first, lines_from, splitlines, is_break,
  is_break_return, is_break_newline, IsUnbroken, lines_from-unbroken, lines_from-cons,
}

rstrip-keep_front :
    (c : Char) (r : String) → rstrip r ≡ r → rstrip (keep_front c r) ≡ keep_front c r
unfolding rstrip keep_front
rstrip-keep_front c String.[] h = elim (Bool-cases (is_space (code c))) [
  | inl space ↦ rw space refl
  | inr other ↦ rw other (rw other refl)
]
rstrip-keep_front c (String.◌∷◌ d u) h = ap (keep_front c) h

rstrip_idem : (s : String) → rstrip (rstrip s) ≡ rstrip s
unfolding rstrip
rstrip_idem String.[] = refl
rstrip_idem (String.◌∷◌ c s) = rstrip-keep_front c (rstrip s) (rstrip_idem s)

keep_front-tail : (c : Char) (s r : String) → keep_front c r ≡ String.◌∷◌ c s → r ≡ s
unfolding keep_front
keep_front-tail c s String.[] h = elim (Bool-cases (is_space (code c))) [
  | inl space ↦ absurd (cons-ne-nil c s (sym (rw space at h)))
  | inr other ↦ tail-eq_of_cons-eq (rw other at h)
]
keep_front-tail c s (String.◌∷◌ d u) h = tail-eq_of_cons-eq h

rstrip-lstrip : (s : String) → rstrip s ≡ s → rstrip (lstrip s) ≡ lstrip s
unfolding lstrip rstrip
rstrip-lstrip String.[] h = refl
rstrip-lstrip (String.◌∷◌ c s) h = elim (Bool-cases (is_space (code c))) [
  | inl space ↦ rw space (rstrip-lstrip s (keep_front-tail c s (rstrip s) h))
  | inr other ↦ rw other h
]

lstrip_idem : (s : String) → lstrip (lstrip s) ≡ lstrip s
unfolding lstrip
lstrip_idem String.[] = refl
lstrip_idem (String.◌∷◌ c s) = elim (Bool-cases (is_space (code c))) [
  | inl space ↦ rw space (lstrip_idem s)
  | inr other ↦ rw other (rw other refl)
]

pub strip_idem : (s : String) → strip (strip s) ≡ strip s
unfolding strip
strip_idem s = ap lstrip (rstrip-lstrip (rstrip s) (rstrip_idem s)) ∙ lstrip_idem (rstrip s)

module _ (ends : ℕ → Bool) where
  rstrip-IsUnbroken : (s : String) → IsUnbroken ends s → IsUnbroken ends (rstrip s)
  unfolding rstrip keep_front IsUnbroken
  rstrip-IsUnbroken String.[] h = tt
  rstrip-IsUnbroken (String.◌∷◌ c s) h = kept c (rstrip s) h.0 (rstrip-IsUnbroken s h.1)
    where
      kept :
          (c : Char) (r : String)
          → ends (code c) ≡ false
          → IsUnbroken ends r
          → IsUnbroken ends (keep_front c r)
      kept c String.[] h k = elim (Bool-cases (is_space (code c))) [
        | inl space ↦ rw space tt
        | inr other ↦ rw other (h, tt)
      ]
      kept c (String.◌∷◌ d u) h k = (h, k)

  lstrip-IsUnbroken : (s : String) → IsUnbroken ends s → IsUnbroken ends (lstrip s)
  unfolding lstrip IsUnbroken
  lstrip-IsUnbroken String.[] h = tt
  lstrip-IsUnbroken (String.◌∷◌ c s) h = elim (Bool-cases (is_space (code c))) [
    | inl space ↦ rw space (lstrip-IsUnbroken s h.1)
    | inr other ↦ rw other h
  ]

  pub strip-IsUnbroken : (s : String) → IsUnbroken ends s → IsUnbroken ends (strip s)
  unfolding strip
  strip-IsUnbroken s h = lstrip-IsUnbroken (rstrip s) (rstrip-IsUnbroken s h)

  onto_first-IsUnbroken :
      (c : Char) (lines : List String)
      → ends (code c) ≡ false
      → All (IsUnbroken ends) lines
      → All (IsUnbroken ends) (onto_first c lines)
  unfolding onto_first IsUnbroken
  onto_first-IsUnbroken c [] h k = ((h, tt), tt)
  onto_first-IsUnbroken c (line ∷ rest) h k = ((h, k.0), k.1)

  lines_from-IsUnbroken :
      (carriage : Bool) (s : String) → All (IsUnbroken ends) (lines_from ends "" carriage s)
  unfolding lines_from IsUnbroken
  lines_from-IsUnbroken carriage String.[] = tt
  lines_from-IsUnbroken carriage (String.◌∷◌ c s) =
      let rest = lines_from-IsUnbroken (eqb (code c) 13) s in
      elim (Bool-cases (carriage && eqb (code c) 10)) [
        | inl skipped ↦ rw skipped rest
        | inr other ↦ rw other (elim (Bool-cases (ends (code c))) [
          | inl end ↦ rw end (tt, rest)
          | inr inside ↦ rw inside (onto_first-IsUnbroken c _ inside rest)
        ])
      ]

-- a text that is one line
unfoldable pub IsLine : String → Type 0
IsLine s = ((s == "") ≡ false) × IsUnbroken is_break s

pub splitlines-IsUnbroken : (s : String) → All (IsUnbroken is_break) (splitlines s)
unfolding splitlines
splitlines-IsUnbroken s = lines_from-IsUnbroken is_break false s

lines_from-one :
    (c : Char) (s : String)
    → IsUnbroken is_break (String.◌∷◌ c s)
    → lines_from is_break "" false (String.◌∷◌ c s) ≡ String.◌∷◌ c s ∷ []
unfolding IsUnbroken onto_first lines_from
lines_from-one c String.[] h =
    lines_from-unbroken is_break "" is_break_return is_break_newline false c "" h.0
lines_from-one c (String.◌∷◌ d s) h =
    lines_from-unbroken is_break "" is_break_return is_break_newline false c (String.◌∷◌ d s) h.0
    ∙ ap (onto_first c) (lines_from-one d s h.1)

-- Lines that are joined are split again.
pub splitlines-join :
    (lines : List String) → All IsLine lines → splitlines (join "\n" lines) ≡ lines
unfolding splitlines join IsLine
splitlines-join [] h = refl
splitlines-join (String.[] ∷ rest) h = ground (arith, h.0.0)
splitlines-join (String.◌∷◌ c s ∷ []) h = lines_from-one c s h.0.1
splitlines-join (String.◌∷◌ c s ∷ t ∷ rest) h =
    lines_from-cons is_break "" is_break_return is_break_newline false c s (join "\n" (t ∷ rest))
      h.0.1
    ∙ (ap (λ line. line ∷ splitlines (join "\n" (t ∷ rest))) (append-nil (String.◌∷◌ c s))
        ∙ ap (◌∷◌ (String.◌∷◌ c s)) (splitlines-join (t ∷ rest) h.1))
