-- ===== src/Workflow/Integration/Headers.antt =====
-- The lines of a diff that name a path, told from their text.
use Prim.Native.Char.{Char}
use Prim.Native.String.{◌++◌}
use mathlib.Core.Path.{ap₂}
use text.Mathlib.TextLemmas.{nil-append, cons-append, head-eq_of_cons-eq}
use ai_native_sweng.Prelude.{
  String, Option, some, none, List, [], ◌∷◌, ◌==◌, ◌≡◌, ◌≢◌, ◌⊎◌, inl, inr, refl, sym, ap, ◌∙◌,
  true, Bool-cases, eq_iff, eq_refl, if◌then◌else◌, arith,
}
use ai_native_sweng.Review.Findings.Parse.{after_prefix}
use ai_native_sweng.Workflow.Integration.{header_path}

-- The line names the path that follows "+++ b/" or "--- a/" at its start.
pub Names : String → String → Type 0
Names line path = (line ≡ "+++ b/" ++ path) ⊎ (line ≡ "--- a/" ++ path)

-- The paths that the lines name, in order, without "/dev/null".
pub data AreNamed : List String → List String → Type 0 where
  no_lines : AreNamed [] []
  other_line :
      {line : String} {rest paths : List String}
      → ((path : String) → ¬ Names line path)
      → AreNamed rest paths
      → AreNamed (line ∷ rest) paths
  no_file :
      {line : String} {rest paths : List String}
      → Names line "/dev/null"
      → AreNamed rest paths
      → AreNamed (line ∷ rest) paths
  a_path :
      {line path : String} {rest paths : List String}
      → Names line path
      → path ≢ "/dev/null"
      → AreNamed rest paths
      → AreNamed (line ∷ rest) (path ∷ paths)

after_prefix-append : (p t : String) → after_prefix p (p ++ t) ≡ some t
unfolding after_prefix
after_prefix-append String.[] t = ap some (nil-append t)
after_prefix-append (String.◌∷◌ c p) t =
    rw (cons-append c p t, eq_refl (String.◌∷◌ c String.[])) (after_prefix-append p t)

head_eq : (c d : Char) → (String.◌∷◌ c String.[] == String.◌∷◌ d String.[]) ≡ true → d ≡ c
head_eq c d h =
    sym (head-eq_of_cons-eq ((eq_iff (String.◌∷◌ c String.[]) (String.◌∷◌ d String.[])).0 h))

some-injective : {s t : String} → some s ≡ some t → s ≡ t
some-injective e = cc

after_prefix-some : (p s t : String) → after_prefix p s ≡ some t → s ≡ p ++ t
unfolding after_prefix
after_prefix-some String.[] s t h = some-injective h ∙ sym (nil-append t)
after_prefix-some (String.◌∷◌ c p) String.[] t h = cc
after_prefix-some (String.◌∷◌ c p) (String.◌∷◌ d s) t h =
    elim (Bool-cases (String.◌∷◌ c String.[] == String.◌∷◌ d String.[])) [
      | inl same ↦
          cc_same (head_eq c d same) (
            after_prefix-some p s t (sym (ap (λ b. if b then after_prefix p s else none) same) ∙ h))
      | inr other ↦
          absurd (none-some (sym (ap (λ b. if b then after_prefix p s else none) other) ∙ h))
    ]
  where
    cc_same : d ≡ c → s ≡ p ++ t → String.◌∷◌ d s ≡ String.◌∷◌ c p ++ t
    cc_same e k = ap₂ String.◌∷◌ e k ∙ sym (cons-append c p t)

    none-some : none ≡ some t → ⊥
    none-some e = cc

pub header_path-Names : (line path : String) → header_path line ≡ some path → Names line path
unfolding header_path Names
header_path-Names line path h = by_first (after_prefix "+++ b/" line) refl
  where
    by_first : (o : Option String) → after_prefix "+++ b/" line ≡ o → Names line path
    by_first (some p) e = inl (after_prefix-some "+++ b/" line path (ground arith))
    by_first none e = inr (after_prefix-some "--- a/" line path (ground arith))

pub header_path-some : (line path : String) → Names line path → header_path line ≡ none → ⊥
unfolding header_path Names
header_path-some line path (inl e) h =
    ground (arith, ap (after_prefix "+++ b/") e, after_prefix-append "+++ b/" path)
header_path-some line path (inr e) h = by_first (after_prefix "+++ b/" line) refl
  where
    by_first : (o : Option String) → after_prefix "+++ b/" line ≡ o → ⊥
    by_first (some p) k = ground arith
    by_first none k =
        ground (arith, ap (after_prefix "--- a/") e, after_prefix-append "--- a/" path)
