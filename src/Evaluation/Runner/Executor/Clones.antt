-- ===== src/Evaluation/Runner/Executor/Clones.antt =====
-- A clone for an evaluation is made where nothing is.
use ai_native_sweng.Prelude.{
  String, Bool, true, false, Result, Error, ok, err, ◌≡◌, ◌⊎◌, inl, inr, refl, sym, ◌∙◌, ap,
  Bool-cases,
}
use ai_native_sweng.Evaluation.Runner.Executor.{
  Disk, after_step, removed, clone_result, fresh_clone,
}

module _ (W : Type 0) (disk : Disk W) (source dest : String) where
  -- Where `rmtree` leaves nothing behind unless it raises, and making the parent directory makes
  -- nothing at the path itself, either a step before the clone raises, and no clone is made, or the
  -- clone is made in a world in which there is nothing at its path, and decides what is returned.
  pub fresh_clone-fresh :
      ((w w1 : W) → disk.rmtree dest w ≡ (ok tt, w1) → disk.exists dest w1 ≡ false)
      → ((w w1 : W)
          → disk.make_parent dest w ≡ (ok tt, w1)
          → disk.exists dest w1 ≡ disk.exists dest w)
      → (w : W)
      → ((x : Error) × (w1 : W) × (fresh_clone W disk source dest w ≡ (err x, w1))
          × ((removed W disk source dest w ≡ (err x, w1))
              ⊎ ((w0 : W) × (disk.make_parent dest w0 ≡ (err x, w1)))))
        ⊎ ((w1 : W) × (disk.exists dest w1 ≡ false)
            × (fresh_clone W disk source dest w ≡ clone_result W dest (disk.clone source dest w1)))
  unfolding fresh_clone after_step removed
  fresh_clone-fresh gone kept w = by_removed (removed W disk source dest w) refl
    where
      Ends : Type 0
      Ends =
          ((x : Error) × (w1 : W) × (fresh_clone W disk source dest w ≡ (err x, w1))
            × ((removed W disk source dest w ≡ (err x, w1))
                ⊎ ((w0 : W) × (disk.make_parent dest w0 ≡ (err x, w1)))))
          ⊎ ((w1 : W) × (disk.exists dest w1 ≡ false)
              × (fresh_clone W disk source dest w
                  ≡ clone_result W dest (disk.clone source dest w1)))

      removed_by :
          (b : Bool)
          → disk.exists dest w ≡ b
          → removed W disk source dest w ≡ elim b [ true ↦ disk.rmtree dest w | false ↦ (ok tt, w) ]
      removed_by b h = ap (λ b'. elim b' [ true ↦ disk.rmtree dest w | false ↦ (ok tt, w) ]) h

      nothing_there :
          (w1 : W) → removed W disk source dest w ≡ (ok tt, w1) → disk.exists dest w1 ≡ false
      nothing_there w1 e = elim (Bool-cases (disk.exists dest w)) [
        | inl there ↦ gone w w1 (sym (removed_by true there) ∙ e)
        | inr absent ↦
            sym (ap (λ o. disk.exists dest o.1) (sym (removed_by false absent) ∙ e)) ∙ absent
      ]

      by_parent :
          (w1 : W)
          → removed W disk source dest w ≡ (ok tt, w1)
          → (o : Result (Unit {0}) × W) → disk.make_parent dest w1 ≡ o
          → Ends
      by_parent w1 e (err x, w2) h = inl (x, w2, rw (e, h) refl, inr (w1, h))
      by_parent w1 e (ok u, w2) h = inr (w2, kept w1 w2 h ∙ nothing_there w1 e, rw (e, h) refl)

      by_removed : (o : Result (Unit {0}) × W) → removed W disk source dest w ≡ o → Ends
      by_removed (err x, w1) e = inl (x, w1, rw e refl, inl e)
      by_removed (ok u, w1) e = by_parent w1 e (disk.make_parent dest w1) refl
