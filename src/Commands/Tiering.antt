-- ===== src/Commands/Tiering.antt =====
-- cmd/tiering/main.go: one run of the tiering job, and its exit status. What the job calls, over
-- PostgresStore and the archive, is a parameter; the ping of the database only prints a warning.
pub mod Complete
use logs_tracker.Prelude.{
  String, ℕ, suc, ◌*◌, ◌-◌, ◌%◌, ◌^◌, Option, none, some, List, [], ◌∷◌, ltb, if◌then◌else◌,
}
use logs_tracker.Prelude.Int.{ℤ, pos, negsuc}
use logs_tracker.Errors.{GoError, Result, ok, err}
use logs_tracker.Tiering.{TierResult, Deps, retention_window, run_once}

-- How the program ends: `fatal` is `log.Fatalf`.
pub data Ending : Type 0 where
  open_failed archive_failed run_failed : GoError → Ending
  complete : TierResult → Ending

unfoldable pub status_of : List GoError → ℕ
status_of [] = 0
status_of (e ∷ es) = 1

unfoldable pub exit_code : Ending → ℕ
exit_code (open_failed e) = 1
exit_code (archive_failed e) = 1
exit_code (run_failed e) = 1
exit_code (complete r) = status_of r.errors

-- The days as a duration of 64 bits, in two's complement.
unfoldable pub duration_bits : ℤ → ℕ
duration_bits (pos days) = days * 86_400_000_000_000 % 2 ^ 64
duration_bits (negsuc n) = (2 ^ 64 - suc n * 86_400_000_000_000 % 2 ^ 64) % 2 ^ 64

-- A duration that is negative is 0 here, since NewService treats both alike.
unfoldable pub window_of : ℤ → ℕ
unfolding duration_bits
window_of days = let n = duration_bits days in if ltb n (2 ^ 63) then n else 0

module _ {S : Type 0} (deps : Deps S) where
  unfoldable pub ran : Result TierResult × S → Ending
  ran (err e, s) = run_failed e
  ran (ok r, s) = complete r

  unfoldable pub with_archive : ℕ → (String → ℕ) → ℤ → S → Option GoError → Ending
  with_archive now clock days s (some e) = archive_failed e
  with_archive now clock days s none =
      ran (run_once deps now (retention_window (window_of days)) clock s)

  -- The errors of opening the database and of making the archive's directories.
  unfoldable pub tiering_job : Option GoError → Option GoError → ℕ → (String → ℕ) → ℤ → S → Ending
  tiering_job (some e) no_archive now clock days s = open_failed e
  tiering_job none no_archive now clock days s = with_archive now clock days s no_archive
