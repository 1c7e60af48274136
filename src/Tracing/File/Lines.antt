-- ===== src/Tracing/File/Lines.antt =====
-- The lines of a trace file are the texts that `json.dumps` wrote, one dict on each.
use Prim.Native.String.{◌++◌}
use text.Mathlib.TextLemmas.{append_assoc}
use ai_native_sweng.Prelude.{
  String, List, [], ◌∷◌, map, ◌≡◌, refl, sym, ap, ◌∙◌, concat, strip, file_lines, object_text,
  object_text-nonempty, strip-object_text, file_lines-object_text, ◌==◌, false, IsUnbroken,
  is_newline,
}
use ai_native_sweng.Json.Value.{Dict}
use ai_native_sweng.Tracing.File.{trace_text, line_of}

-- A text that json.dumps may write for a dict: an object on one line.
pub record IsObjectText (text : String) : Type 0 where
  pub body : String
  pub text_is : text ≡ object_text body
  pub unbroken : IsUnbroken is_newline body

module _ (dumps : Dict → String) (dumped : (d : Dict) → IsObjectText (dumps d)) where
  first_line :
      (d : Dict) (rest : String)
      → file_lines (dumps d ++ ("\n" ++ rest)) ≡ (dumps d ++ "\n") ∷ file_lines rest
  first_line d rest =
      let shape = dumped d in
      ap (λ t. file_lines (t ++ ("\n" ++ rest))) shape.text_is
      ∙ (file_lines-object_text shape.body rest shape.unbroken
          ∙ ap (λ t. (t ++ "\n") ∷ file_lines rest) (sym shape.text_is))

  pub file_lines-trace_text :
      (ds : List Dict) → file_lines (trace_text dumps ds) ≡ map (line_of dumps) ds
  unfolding file_lines trace_text line_of concat
  file_lines-trace_text [] = refl
  file_lines-trace_text (d ∷ ds) =
      ap file_lines (append_assoc (dumps d) "\n" (trace_text dumps ds))
      ∙ (first_line d (trace_text dumps ds) ∙ ap (◌∷◌ (dumps d ++ "\n")) (file_lines-trace_text ds))

  pub strip-line_of : (d : Dict) → strip (line_of dumps d) ≡ dumps d
  unfolding line_of concat
  strip-line_of d =
      let shape = dumped d in
      ap (λ t. strip (t ++ "\n")) shape.text_is ∙ (strip-object_text shape.body ∙ sym shape.text_is)

  pub dumps-nonempty : (d : Dict) → (dumps d == "") ≡ false
  dumps-nonempty d =
      let shape = dumped d in ap (λ t. t == "") shape.text_is ∙ object_text-nonempty shape.body
