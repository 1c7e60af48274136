-- ===== src/Evaluation/Dataset/Accepted.antt =====
-- What a descriptor that is accepted declares.
use ai_native_sweng.Prelude.{
  String, true, false, List, [], ◌∷◌, ◌≡◌, ◌≢◌, nonempty, contains, ok, eq_iff, sym, All, arith,
  ◌∙◌,
}
use ai_native_sweng.Json.Value.{Dict}
use ai_native_sweng.Json.Convert.{Builtins, as_strings-strings, reading}
use ai_native_sweng.Evaluation.Dataset.{
  DatasetDescriptor, partitions, all_different, checked_descriptor, descriptor_payload,
  dataset_descriptor,
}

-- No text stands twice in the list.
unfoldable pub AreDifferent : List String → Type 0
AreDifferent [] = Unit
AreDifferent (x ∷ xs) = All (λ y. x ≢ y) xs × AreDifferent xs

not_contained : (xs : List String) (x : String) → contains xs x ≡ false → All (λ y. x ≢ y) xs
unfolding contains
not_contained [] x h = tt
not_contained (y ∷ ys) x h =
    ((λ e. ground (arith, h, (eq_iff y x).1 (sym e))), not_contained ys x (ground (arith, h)))

all_different-AreDifferent : (xs : List String) → all_different xs ≡ true → AreDifferent xs
unfolding all_different AreDifferent
all_different-AreDifferent [] h = tt
all_different-AreDifferent (x ∷ xs) h =
    (not_contained xs x (ground (arith, h)), all_different-AreDifferent xs (ground (arith, h)))

module _ (py : Builtins) where
  dataset_descriptor-descriptor_payload :
      (r : DatasetDescriptor) → dataset_descriptor py (descriptor_payload r) ≡ checked_descriptor r
  unfolding dataset_descriptor descriptor_payload reading
  dataset_descriptor-descriptor_payload r = simp (as_strings-strings py)

  checked_idem :
      (r s : DatasetDescriptor) → checked_descriptor r ≡ ok s → checked_descriptor s ≡ ok s
  unfolding checked_descriptor
  checked_idem r s h = ground arith

  checked-dataset_descriptor :
      (d : Dict) (r : DatasetDescriptor)
      → dataset_descriptor py d ≡ ok r
      → checked_descriptor r ≡ ok r
  unfolding dataset_descriptor
  checked-dataset_descriptor d r h = grind (arith, checked_idem)

  declared :
      (r : DatasetDescriptor)
      → checked_descriptor r ≡ ok r
      → (contains partitions r.expected_partition ≡ true)
        × (nonempty r.task_ids ≡ true)
        × (all_different r.task_ids ≡ true)
  unfolding checked_descriptor
  declared r h = (ground (arith, h), ground (arith, h), ground (arith, h))

  -- A descriptor that is accepted lists at least one task and none twice, expects one of the three
  -- partitions, and is read back from its payload unchanged.
  pub dataset_descriptor_lem :
      (d : Dict) (r : DatasetDescriptor)
      → dataset_descriptor py d ≡ ok r
      → (nonempty r.task_ids ≡ true)
        × AreDifferent r.task_ids
        × (contains partitions r.expected_partition ≡ true)
        × (dataset_descriptor py (descriptor_payload r) ≡ ok r)
  dataset_descriptor_lem d r h =
      let checked = checked-dataset_descriptor d r h in
      let (known, some_task, different) = declared r checked in
      (
        some_task,
        all_different-AreDifferent r.task_ids different,
        known,
        dataset_descriptor-descriptor_payload r ∙ checked,
      )
