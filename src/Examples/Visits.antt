-- ===== src/Examples/Visits.antt =====
-- The queries of PostgresStore of internal/store over rows that are visited in another order.
use logs_tracker.Prelude.{none, some, List, [], ◌∷◌, map}
use logs_tracker.Errors.{failure}
use logs_tracker.Store
use logs_tracker.Store.{Batch, MemoryStore, leaf_hashes}
use logs_tracker.Postgres.{Tables}
use logs_tracker.Postgres.Queries
use logs_tracker.Postgres.Queries.{image_of}
use logs_tracker.Postgres.Commands
use logs_tracker.Postgres.Commands.{Command, create, set_status, purge, memory_run, succeeded}
use logs_tracker.Postgres.View.{view}
use logs_tracker.Postgres.Agreement.{as_kept}
use mathlib.Core.List.Permᴰ
use mathlib.Core.List.{Permᴰ}
use logs_tracker.Examples.Tables.{columns, no_faults, one_fault, empty_tables, stored, second, row}

abbrev commands : List Command
commands =
    create one_fault row (stored "r1" ∷ second ∷ [])
    ∷ create no_faults row (stored "r1" ∷ second ∷ [])
    ∷ set_status none "b1" "archived" (some "archive/b1")
    ∷ purge (some (failure "connection reset")) "b1"
    ∷ []

abbrev final : Tables
final = Commands.run columns commands empty_tables

-- The rows of the records in another order.
abbrev turned {ℓ} : {A : Type ℓ} → List A → List A
turned [] = []
turned (a ∷ []) = a ∷ []
turned (a ∷ b ∷ rows) = b ∷ a ∷ rows

abbrev visited : Tables
visited = record final { audit_records = turned final.audit_records }

abbrev memory : MemoryStore
memory =
    memory_run (map (as_kept columns) (succeeded columns commands empty_tables)) (view empty_tables)
