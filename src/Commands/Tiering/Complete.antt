-- ===== src/Commands/Tiering/Complete.antt =====
-- What exit status 0 of cmd/tiering/main.go shows.
use logs_tracker.Prelude.{
  ◌-◌, ℕ, String, ◌≡◌, refl, Option, none, some, List, [], ◌∷◌, length, arith,
}
use logs_tracker.Prelude.Int.{ℤ}
use logs_tracker.Errors.{GoError, Result, ok, err}
use logs_tracker.Store.{Batch}
use logs_tracker.Tiering.{TierResult, Deps, retention_window, run_once}
use logs_tracker.Tiering.Complete.{AreTiered, run_once_complete}
use logs_tracker.Commands.Tiering.{
  Ending, complete, status_of, exit_code, window_of, ran, with_archive, tiering_job,
}

status_of-zero : (es : List GoError) → status_of es ≡ 0 → es ≡ []
unfolding status_of
status_of-zero [] e = refl
status_of-zero (x ∷ es) e = absurd (omega arith)

module _ {S : Type 0} (deps : Deps S) (now : ℕ) (clock : String → ℕ) (days : ℤ) (s : S) where
  -- The batches that were due are tiered, one after the other, from the state before the run to
  -- that after it, and the program says how many.
  abbrev pub AllTiered : Ending → Type 0
  AllTiered ending =
      (bs : List Batch) × (r : TierResult) × (deps.batches_for_tiering
          (now - retention_window (window_of days)) s
        ≡ ok bs)
      × (ending ≡ complete r)
      × (r.batches_tiered ≡ length bs)
      × AreTiered deps clock bs s (run_once deps now (retention_window (window_of days)) clock s).1

  ran-AllTiered :
      (o : Result TierResult × S)
      → (run_once deps now (retention_window (window_of days)) clock s).0 ≡ o.0
      → exit_code (ran deps o) ≡ 0
      → AllTiered (ran deps o)
  unfolding ran exit_code
  ran-AllTiered (err x, s') e z = absurd (omega arith)
  ran-AllTiered (ok r, s') e z =
      let (bs, due, count, tiered) =
        run_once_complete deps now (retention_window (window_of days)) clock s r e
          (status_of-zero r.errors z) in
      (bs, r, due, refl, count, tiered)

  with_archive-AllTiered :
      (o : Option GoError)
      → exit_code (with_archive deps now clock days s o) ≡ 0
      → AllTiered (with_archive deps now clock days s o)
  unfolding with_archive exit_code
  with_archive-AllTiered (some e) z = absurd (omega arith)
  with_archive-AllTiered none z = ran-AllTiered _ refl z

  -- If the program ends with status 0, then the query for the batches that signed and closed before
  -- the retention window was answered, and each batch that it found was tiered, in the answer's
  -- order: its records were read, an archive object with a line for each of them was put, the batch
  -- was entered in the index, its records were purged and it was marked as archived, by calls in this
  -- order, each without an error on the state that the one before left. The program reports as many
  -- batches as were found.
  pub tiering_job-AllTiered :
      (no_database no_archive : Option GoError)
      → exit_code (tiering_job deps no_database no_archive now clock days s) ≡ 0
      → AllTiered (tiering_job deps no_database no_archive now clock days s)
  unfolding tiering_job exit_code
  tiering_job-AllTiered (some e) no_archive z = absurd (omega arith)
  tiering_job-AllTiered none no_archive z = with_archive-AllTiered no_archive z
