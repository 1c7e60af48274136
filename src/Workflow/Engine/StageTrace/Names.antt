-- ===== src/Workflow/Engine/StageTrace/Names.antt =====
-- Two identifiers of stages meet only if the stages and the identifiers are the same.
use Prim.Native.Char.{Char, code}
use mathlib.Core.Path.{ap₂}
use Prim.Native.String.{◌++◌}
use ai_native_sweng.Prelude.{
  String, false, ◌≡◌, ◌≢◌, refl, ◌==◌, eq_iff, concat, arith, ap, sym, ◌∙◌,
}
use text.Mathlib.TextLemmas.{
  nil-append, append-nil, cons-append, append_cancel_left, head-eq_of_cons-eq, tail-eq_of_cons-eq,
}
use ai_native_sweng.Workflow.Engine.StageTrace.{stage_id}

-- A text with no colon.
abbrev pub IsColonFree : String → Type 0
IsColonFree String.[] = Unit
IsColonFree (String.◌∷◌ c s) = (code c ≢ 58) × IsColonFree s

abbrev colon : Char
colon = ":"

colon_starts : (a : String) → ":" ++ a ≡ String.◌∷◌ colon a
colon_starts a = cons-append colon "" a ∙ ap (String.◌∷◌ colon) (nil-append a)

colon_first :
    (d : Char) (q a b : String) → code d ≢ 58 → ":" ++ a ≡ String.◌∷◌ d q ++ (":" ++ b) → ⊥
colon_first d q a b h e =
    h (ap code (sym (head-eq_of_cons-eq (sym (colon_starts a) ∙ (e ∙ cons-append d q (":" ++ b))))))

prefix_unique :
    (p q a b : String) → IsColonFree p → IsColonFree q → p ++ (":" ++ a) ≡ q ++ (":" ++ b) → p ≡ q
prefix_unique String.[] String.[] a b hp hq e = refl
prefix_unique String.[] (String.◌∷◌ d q) a b hp hq e =
    absurd (colon_first d q a b hq.0 (sym (nil-append (":" ++ a)) ∙ e))
prefix_unique (String.◌∷◌ c p) String.[] a b hp hq e =
    absurd (colon_first c p b a hp.0 (sym (nil-append (":" ++ b)) ∙ sym e))
prefix_unique (String.◌∷◌ c p) (String.◌∷◌ d q) a b hp hq e =
    let e' = sym (cons-append c p (":" ++ a)) ∙ (e ∙ cons-append d q (":" ++ b)) in
    ap₂ String.◌∷◌ (head-eq_of_cons-eq e') (prefix_unique p q a b hp.1 hq.1 (tail-eq_of_cons-eq e'))

stage_id-append : (p a : String) → stage_id p a ≡ p ++ (":" ++ a)
unfolding stage_id concat
stage_id-append p a = rw append-nil

-- Within one stage, identifiers are told apart as they were.
pub stage_id-eq : (p a b : String) → (stage_id p a == stage_id p b) ≡ (a == b)
stage_id-eq p a b = ground (arith, eq_iff (stage_id p a) (stage_id p b), eq_iff a b, cancel)
  where
    cancel : stage_id p a ≡ stage_id p b → a ≡ b
    cancel e = append_cancel_left ":" a b (
        append_cancel_left p (":" ++ a) (":" ++ b)
          (sym (stage_id-append p a) ∙ (e ∙ stage_id-append p b)))

-- Identifiers of stages with different names differ.
pub stage_id-ne :
    (p q a b : String)
    → IsColonFree p
    → IsColonFree q
    → p ≢ q
    → (stage_id p a == stage_id q b) ≡ false
stage_id-ne p q a b hp hq ne = ground (arith, eq_iff (stage_id p a) (stage_id q b), apart)
  where
    apart : stage_id p a ≡ stage_id q b → ⊥
    apart e =
        ne (prefix_unique p q a b hp hq (sym (stage_id-append p a) ∙ (e ∙ stage_id-append q b)))
