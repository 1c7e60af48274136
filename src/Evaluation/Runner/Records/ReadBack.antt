-- ===== src/Evaluation/Runner/Records/ReadBack.antt =====
-- The run records are read back from the files as they were written, and nothing else is changed.
use ai_native_sweng.Prelude.{
  String, Option, some, List, [], ◌∷◌, map, ◌≡◌, ◌≢◌, refl, ◌∙◌, ok, ◌>>=◌, traverse, eq_iff, arith,
  ◌==◌, Bool-cases, inl, inr, All,
}
use ai_native_sweng.Json.Value.{Json, obj, Dict, items_list-items}
use ai_native_sweng.Json.Convert.{Builtins, reading, subscripted}
use ai_native_sweng.Evaluation.Runner.{RunRecord, run_payload, run_record, checked_run}
use ai_native_sweng.Evaluation.Runner.RoundTrip.{run_reading_back}
use ai_native_sweng.Evaluation.Runner.Records.{
  Files, write_text, read_text, records_payload, records_text, write_run_records, read_run_records,
  decoded,
}

read_text-write_text :
    (path text : String) (files : Files) → read_text path (write_text path text files) ≡ ok text
unfolding read_text write_text
read_text-write_text path text [] = ground (arith, eq_iff path path)
read_text-write_text path text ((p, t) ∷ rest) = elim (Bool-cases (p == path)) [
  | inl same ↦ rw same (rw same refl)
  | inr other ↦ rw other (rw other (read_text-write_text path text rest))
]

read_text-other :
    (path text other : String) (files : Files)
    → path ≢ other
    → read_text other (write_text path text files) ≡ read_text other files
unfolding read_text write_text
read_text-other path text other [] h = ground (arith, eq_iff path other)
read_text-other path text other ((p, t) ∷ rest) h =
    ground (arith, eq_iff p path, eq_iff p other, read_text-other path text other rest h)

module _ (py : Builtins) where
  entries-map :
      (records : List RunRecord)
      → All (λ r. checked_run r ≡ ok r) records
      → traverse
          (λ entry. subscripted entry >>= run_record py)
          (map (λ r. obj (run_payload r)) records)
        ≡ ok records
  unfolding traverse subscripted
  entries-map [] h = refl
  entries-map (r ∷ records) h = rw (run_reading_back py r ∙ h.0, entries-map records h.1)

  module _ (dumps : Dict → String) (loads : String → Option Json) (path : String)
      (files : Files) where
    -- Where `json.loads` reads the text of the artifact back, records that their constructor accepts
    -- are read back from the file that they were written to, whatever it held before, and what is
    -- read from any other file is as before the write.
    pub read_run_records-write_run_records :
        (records : List RunRecord)
        → All (λ r. checked_run r ≡ ok r) records
        → loads (records_text dumps records) ≡ some (obj (records_payload records))
        → (other : String) → path ≢ other
        → (read_run_records py loads path (write_run_records dumps records path files) ≡ ok records)
          × (read_run_records py loads other (write_run_records dumps records path files)
              ≡ read_run_records py loads other files)
    unfolding read_run_records write_run_records records_payload decoded reading
    read_run_records-write_run_records records accepted readable other h = (
      rw (read_text-write_text path (records_text dumps records) files) (
          rw readable (
            rw (items_list-items (map (λ r. obj (run_payload r)) records))
              (entries-map records accepted))),
      rw (read_text-other path (records_text dumps records) other files h) refl,
    )
