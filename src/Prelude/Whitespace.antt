-- ===== src/Prelude/Whitespace.antt =====
-- `str.strip`, `str.splitlines` and the lines of a text file.
use Prim.Native.Nat.{ℕ}
use Prim.Native.Char.{Char, code}
use Prim.Native.String.{String, ◌++◌}
use mathlib.Core.Path.{◌≡◌, refl, ap, sym, subst, ◌∙◌}
use mathlib.Core.Logic.{inl, inr}
use mathlib.Core.Bool.{Bool, true, false, true≢false, ◌||◌, ◌&&◌}
use mathlib.Core.List.{List, [], ◌∷◌}
use text.Mathlib.TextLemmas.{nil-append, cons-append, cons-ne-nil, append_assoc}
use text.Mathlib.Text.{◌==◌}
use text.Mathlib.TextEquality.{eq_iff}
use ai_native_sweng.Prelude.Tests.{leb, eqb, eqb→eq, if◌then◌else◌, Bool-cases}

between : ℕ → ℕ → ℕ → Bool
between low high c = leb low c && leb c high

-- chr(c).isspace()
unfoldable pub is_space : ℕ → Bool
unfolding between
is_space c =
    between 9 13 c
    || between 28 32 c
    || eqb c 133
    || eqb c 160
    || eqb c 5760
    || between 8192 8202 c
    || between 8232 8233 c
    || eqb c 8239
    || eqb c 8287
    || eqb c 12288

-- the characters that end a line for `splitlines`
unfoldable pub is_break : ℕ → Bool
unfolding between
is_break c = between 10 13 c || between 28 30 c || eqb c 133 || between 8232 8233 c

pub is_break_return : is_break 13 ≡ true
unfolding is_break between
is_break_return = refl

pub is_break_newline : is_break 10 ≡ true
unfolding is_break between
is_break_newline = refl

unfoldable pub lstrip : String → String
unfolding is_space
lstrip String.[] = ""
lstrip (String.◌∷◌ c s) = let rest = lstrip s in if is_space (code c) then rest else String.◌∷◌ c s

-- the character in front of a text that is already stripped on the right
unfoldable pub keep_front : Char → String → String
unfolding is_space
keep_front c String.[] = if is_space (code c) then "" else String.◌∷◌ c String.[]
keep_front c (String.◌∷◌ d s) = String.◌∷◌ c (String.◌∷◌ d s)

unfoldable pub rstrip : String → String
unfolding keep_front
rstrip String.[] = ""
rstrip (String.◌∷◌ c s) = keep_front c (rstrip s)

-- s.strip()
unfoldable pub strip : String → String
unfolding lstrip rstrip
strip s = lstrip (rstrip s)

-- a character in front of the first line
unfoldable pub onto_first : Char → List String → List String
onto_first c [] = String.◌∷◌ c String.[] ∷ []
onto_first c (line ∷ rest) = String.◌∷◌ c line ∷ rest

-- The lines of a text, each with the given end; `carriage` after "\r", which a "\n" belongs to.
unfoldable pub lines_from : (ℕ → Bool) → String → Bool → String → List String
unfolding onto_first
lines_from ends terminator carriage String.[] = []
lines_from ends terminator carriage (String.◌∷◌ c s) =
    let rest = lines_from ends terminator (eqb (code c) 13) s in
    if carriage && eqb (code c) 10
    then rest
    else if ends (code c)
    then terminator ∷ rest
    else onto_first c rest

-- text.splitlines()
unfoldable pub splitlines : String → List String
unfolding lines_from is_break
splitlines text = lines_from is_break "" false text

-- the ends of line of a file opened in text mode
unfoldable pub is_newline : ℕ → Bool
is_newline c = eqb c 10 || eqb c 13

-- list(file), for a file that holds the text
unfoldable pub file_lines : String → List String
unfolding lines_from is_newline
file_lines text = lines_from is_newline "\n" false text

-- No character of the text ends a line.
unfoldable pub IsUnbroken : (ℕ → Bool) → String → Type 0
IsUnbroken ends String.[] = Unit
IsUnbroken ends (String.◌∷◌ c s) = (ends (code c) ≡ false) × IsUnbroken ends s

module _ (ends : ℕ → Bool) (terminator : String) (cr : ends 13 ≡ true) (lf : ends 10 ≡ true) where
  not_end : (n c : ℕ) → ends n ≡ true → ends c ≡ false → eqb c n ≡ false
  not_end n c h k = elim (Bool-cases (eqb c n)) [
    | inl e ↦ absurd (true≢false (sym h ∙ (ap ends (sym (eqb→eq c n e)) ∙ k)))
    | inr e ↦ e
  ]

  pub lines_from-unbroken :
      (carriage : Bool) (c : Char) (s : String)
      → ends (code c) ≡ false
      → lines_from ends terminator carriage (String.◌∷◌ c s)
        ≡ onto_first c (lines_from ends terminator false s)
  unfolding lines_from
  lines_from-unbroken true c s h = rw (h, not_end 10 (code c) lf h, not_end 13 (code c) cr h) refl
  lines_from-unbroken false c s h = rw (h, not_end 13 (code c) cr h) refl

  lines_from-newline :
      (s : String)
      → lines_from ends terminator false ("\n" ++ s)
        ≡ terminator ∷ lines_from ends terminator false s
  unfolding lines_from
  lines_from-newline s = rw cons-append (rw nil-append (rw lf refl))

  -- A line in front of the others is the first of the lines.
  pub lines_from-cons :
      (carriage : Bool) (c : Char) (line rest : String)
      → IsUnbroken ends (String.◌∷◌ c line)
      → lines_from ends terminator carriage (String.◌∷◌ c line ++ ("\n" ++ rest))
        ≡ (String.◌∷◌ c line ++ terminator) ∷ lines_from ends terminator false rest
  unfolding IsUnbroken onto_first
  lines_from-cons carriage c String.[] rest h =
      rw
        (
          cons-append c "" terminator,
          nil-append terminator,
          cons-append c "" ("\n" ++ rest),
          nil-append ("\n" ++ rest),
        )
        (lines_from-unbroken carriage c ("\n" ++ rest) h.0
          ∙ ap (onto_first c) (lines_from-newline rest))
  lines_from-cons carriage c (String.◌∷◌ d line) rest h =
      rw
        (
          cons-append c (String.◌∷◌ d line) terminator,
          cons-append c (String.◌∷◌ d line) ("\n" ++ rest),
        )
        (lines_from-unbroken carriage c (String.◌∷◌ d line ++ ("\n" ++ rest)) h.0
          ∙ ap (onto_first c) (lines_from-cons false d line rest h.1))

IsUnbroken-append :
    (ends : ℕ → Bool) (s t : String)
    → IsUnbroken ends s
    → IsUnbroken ends t
    → IsUnbroken ends (s ++ t)
unfolding IsUnbroken
IsUnbroken-append ends String.[] t p q = subst (IsUnbroken ends) (sym (nil-append t)) q
IsUnbroken-append ends (String.◌∷◌ c s) t p q =
    subst (IsUnbroken ends) (sym (cons-append c s t)) (p.0, IsUnbroken-append ends s t p.1 q)

keep_front-append :
    (c d : Char) (s : String)
    → keep_front c (s ++ String.◌∷◌ d String.[]) ≡ String.◌∷◌ c (s ++ String.◌∷◌ d String.[])
unfolding keep_front
keep_front-append c d String.[] = rw nil-append refl
keep_front-append c d (String.◌∷◌ b s) = rw cons-append refl

rstrip-line :
    (s : String) (d : Char)
    → is_space (code d) ≡ false
    → rstrip (s ++ String.◌∷◌ d "\n") ≡ s ++ String.◌∷◌ d String.[]
unfolding rstrip keep_front
rstrip-line String.[] d h = rw nil-append (rw h (sym (nil-append (String.◌∷◌ d String.[]))))
rstrip-line (String.◌∷◌ c s) d h = rw cons-append (
    rw (rstrip-line s d h)
      (keep_front-append c d s ∙ sym (cons-append c s (String.◌∷◌ d String.[]))))

-- The text of a JSON object on one line.
unfoldable pub object_text : String → String
object_text body = "{" ++ (body ++ "}")

strip-between :
    (c d : Char) (body : String)
    → is_space (code c) ≡ false
    → is_space (code d) ≡ false
    → strip ((String.◌∷◌ c "" ++ (body ++ String.◌∷◌ d "")) ++ "\n")
      ≡ String.◌∷◌ c "" ++ (body ++ String.◌∷◌ d "")
unfolding strip lstrip rstrip
strip-between c d body open' close =
    rw
      (
        append_assoc (String.◌∷◌ c "") (body ++ String.◌∷◌ d "") "\n",
        append_assoc body (String.◌∷◌ d "") "\n",
        cons-append d "" "\n",
        nil-append "\n",
        cons-append c "" (body ++ String.◌∷◌ d "\n"),
        nil-append (body ++ String.◌∷◌ d "\n"),
        cons-append c "" (body ++ String.◌∷◌ d ""),
        nil-append (body ++ String.◌∷◌ d ""),
      )
      (rw (rstrip-line body d close, keep_front-append c d body) (rw open' refl))

-- Stripping the line of an object drops its end only.
pub strip-object_text : (body : String) → strip (object_text body ++ "\n") ≡ object_text body
unfolding strip object_text is_space between
strip-object_text body = strip-between _ _ body refl refl

lines_from-between :
    (c : Char) (s rest : String)
    → IsUnbroken is_newline (String.◌∷◌ c s)
    → file_lines ((String.◌∷◌ c "" ++ s) ++ ("\n" ++ rest))
      ≡ ((String.◌∷◌ c "" ++ s) ++ "\n") ∷ file_lines rest
unfolding file_lines is_newline
lines_from-between c s rest h =
    rw (cons-append c "" s, nil-append s)
      (lines_from-cons is_newline "\n" refl refl false c s rest h)

-- A file that starts with the line of an object has it as its first line.
pub file_lines-object_text :
    (body rest : String)
    → IsUnbroken is_newline body
    → file_lines (object_text body ++ ("\n" ++ rest)) ≡ (object_text body ++ "\n") ∷ file_lines rest
unfolding object_text is_newline IsUnbroken
file_lines-object_text body rest h =
    lines_from-between _ (body ++ "}") rest
      (refl, IsUnbroken-append is_newline body "}" h (refl, tt))

pub object_text-nonempty : (body : String) → (object_text body == "") ≡ false
unfolding object_text
object_text-nonempty body = elim (Bool-cases ("{" ++ (body ++ "}") == "")) [
  | inl h ↦ absurd (cons-ne-nil _ _ (sym (cons-append _ "" _) ∙ (eq_iff _ "").0 h))
  | inr h ↦ h
]
