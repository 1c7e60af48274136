-- ===== src/Evaluation/Report/Matrix/Aligned.antt =====
-- A matrix that its constructor accepts is rendered as a table whose lines are equally long.
use Prim.Native.String.{count}
use text.Mathlib.TextLemmas.{length-append}
use ai_native_sweng.Prelude.{
  ℕ, ◌+◌, ◌*◌, ◌≤◌, String, none, List, [], ◌∷◌, ◌++◌, map, ok, ◌≡◌, refl, ap, ◌∙◌, All, all-append,
  all-imp, all-unmap, concat, join, ljust, larger, largest_or-all, count-ljust, count-cells, length,
  length-map, suc, arith, Bool-cases, inl, inr, eqb, eqb→eq,
}
use ai_native_sweng.Workflow.Comparison.{Floats, ComparisonReport, report_rows}
use ai_native_sweng.Evaluation.Report.Matrix.{
  Row, ComparisonMatrix, checked_comparison, labelled_mode, rows_fit, value_lengths, name_width,
  column_width, table_line, table, mode_lines, matrix_note, render_matrix, labelled_rows,
  matrix_from_comparison_report,
}

-- the length of every line of the table
unfoldable pub table_width : ComparisonMatrix → ℕ
table_width m = name_width m + length m.config_ids * column_width m

rows_fit-lengths :
    (n : ℕ) (rows : List Row) → rows_fit n rows ≡ ok tt → All (λ row. length row.values ≡ n) rows
unfolding rows_fit
rows_fit-lengths n [] h = tt
rows_fit-lengths n (row ∷ rest) h = elim (Bool-cases (eqb (length row.values) n)) [
  | inl e ↦ (eqb→eq (length row.values) n e, rows_fit-lengths n rest (rw e at h))
  | inr e ↦ ground (arith, h, e)
]

value_lengths-all :
    (width : ℕ) (rows : List Row)
    → All (λ k. k ≤ width) (value_lengths rows)
    → All (λ row. All (λ v. count v ≤ width) row.values) rows
unfolding value_lengths
value_lengths-all width [] h = tt
value_lengths-all width (row ∷ rest) h =
    let (here, there) = all-append (λ k. k ≤ width) (map count row.values) (value_lengths rest) h in
    (all-unmap (λ k. k ≤ width) count row.values here, value_lengths-all width rest there)

module _ (m : ComparisonMatrix) where
  line_width :
      (name : String) (values : List String)
      → count name ≤ name_width m
      → All (λ v. count v ≤ column_width m) values
      → length values ≡ length m.config_ids
      → count (table_line m name values) ≡ table_width m
  unfolding table_line table_width concat
  line_width name values fits all_fit same =
      let cells = concat (map (ljust (column_width m)) values) in
      omega (
        arith,
        length-append (ljust (name_width m) name) (concat (cells ∷ [])),
        length-append cells "",
        count-ljust (name_width m) name fits,
        count-cells (column_width m) values all_fit,
        ap (λ n. n * column_width m) same,
      )

  names_fit : All (λ row. count row.name ≤ name_width m) m.rows
  unfolding name_width larger
  names_fit =
      all-imp _ (λ row h. ground (arith, h)) m.rows
        (all-unmap _ (λ row. count row.name) m.rows
          (largest_or-all (count "dimension") (map (λ row. count row.name) m.rows)))

  columns : List ℕ
  columns = map count m.config_ids ++ (value_lengths m.rows ++ 12 ∷ [])

  columns_fit : All (λ k. k ≤ column_width m) columns
  unfolding column_width columns
  columns_fit = all-imp _ (λ k h. ground (arith, h)) columns (largest_or-all 12 columns)

  cells_fit :
      All (λ v. count v ≤ column_width m) m.config_ids
      × All (λ row. All (λ v. count v ≤ column_width m) row.values) m.rows
  unfolding columns
  cells_fit =
      let (ids, others) =
        all-append _ (map count m.config_ids) (value_lengths m.rows ++ 12 ∷ []) columns_fit in
      let (values, last) = all-append _ (value_lengths m.rows) (12 ∷ []) others in
      (all-unmap _ count m.config_ids ids, value_lengths-all (column_width m) m.rows values)

  lines_width :
      (rows : List Row)
      → All (λ row. count row.name ≤ name_width m) rows
      → All (λ row. All (λ v. count v ≤ column_width m) row.values) rows
      → All (λ row. length row.values ≡ length m.config_ids) rows
      → All
          (λ line. count line ≡ table_width m)
          (map (λ row. table_line m row.name row.values) rows)
  lines_width [] p q r = tt
  lines_width (row ∷ rest) p q r =
      (line_width row.name row.values p.0 q.0 r.0, lines_width rest p.1 q.1 r.1)

  header_fits : count "dimension" ≤ name_width m
  unfolding name_width larger
  header_fits = ground arith

  -- Of a matrix that its constructor accepts, the rendered text is the title, the mode if it has
  -- one, the table with its header and a line for each row, and the note; the lines of the table
  -- all have the same number of characters.
  pub render_matrix-aligned :
      checked_comparison m ≡ ok m
      → (render_matrix m
          ≡ concat (
              join "\n" (
                concat ("Configuration comparison: " ∷ m.task_set ∷ [])
                ∷ (mode_lines m.mode ++ (table m ++ matrix_note ∷ [])))
              ∷ "\n"
              ∷ []))
        × (length (table m) ≡ length m.rows + 1)
        × All (λ line. count line ≡ table_width m) (table m)
  unfolding render_matrix table checked_comparison
  render_matrix-aligned accepted = (
    refl,
    ap (λ n. suc n) (length-map _ m.rows) ∙ omega arith,
    (
      line_width "dimension" m.config_ids header_fits cells_fit.0 refl,
      lines_width m.rows names_fit cells_fit.1
          (rows_fit-lengths _ m.rows (ground (arith, accepted))),
    ),
  )

module _ (fl : Floats) where
  -- The matrix of a comparison report is accepted whatever the report holds, has no mode and the
  -- two architectures as columns, and shows in each row the values of the report's own rendering,
  -- in a table whose lines have the same number of characters.
  pub matrix_from_comparison_report_lem :
      (r : ComparisonReport)
      → (m : ComparisonMatrix) × (matrix_from_comparison_report fl r ≡ ok m)
        × (m.mode ≡ none)
        × (m.config_ids ≡ r.single.architecture ∷ r.multi.architecture ∷ [])
        × (map (λ row. row.values) m.rows
            ≡ map (λ d. d.single_value ∷ d.multi_value ∷ []) (report_rows fl r))
        × All (λ line. count line ≡ table_width m) (table m)
  unfolding matrix_from_comparison_report checked_comparison labelled_mode rows_fit labelled_rows
      report_rows
  matrix_from_comparison_report_lem r =
      (_, refl, refl, refl, refl, (render_matrix-aligned _ refl).2)
