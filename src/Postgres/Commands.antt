-- ===== src/Postgres/Commands.antt =====
-- Sequences of the writing calls of PostgresStore and of MemoryStore in internal/store/store.go.
use logs_tracker.Prelude.{String, Option, none, some, List, [], ◌∷◌}
use logs_tracker.Errors.{GoError, ok, err}
use logs_tracker.Store
use logs_tracker.Store.{Batch, Record, WormIndexEntry, MemoryStore}
use logs_tracker.Postgres
use logs_tracker.Postgres.Changes
use logs_tracker.Postgres.{Tables, Columns, Faults}

-- A call, with the failures that it meets.
pub data Command : Type 0 where
  create : Faults → Batch → List Record → Command
  set_status : Option GoError → String → String → Option String → Command
  purge : Option GoError → String → Command
  index : Option GoError → WormIndexEntry → Command

unfoldable pub memory_step : Command → MemoryStore → MemoryStore
memory_step (create f b rs) m = Store.create_batch b rs m
memory_step (set_status fault id status key) m = elim (Store.update_batch_status id status key m) [
  | ok m' ↦ m'
  | err e ↦ m
]
memory_step (purge fault id) m = Store.delete_records_by_batch_id id m
memory_step (index fault e) m = Store.insert_worm_index e m

unfoldable pub memory_run : List Command → MemoryStore → MemoryStore
memory_run [] m = m
memory_run (c ∷ cs) m = memory_run cs (memory_step c m)

module _ (columns : Columns) where
  unfoldable pub step : Command → Tables → Tables × Option GoError
  step (create f b rs) t = Postgres.create_batch columns f b rs t
  step (set_status fault id status key) t = Changes.update_batch_status fault id status key t
  step (purge fault id) t = Changes.delete_records_by_batch_id fault id t
  step (index fault e) t = Changes.insert_worm_index columns fault e t

  unfoldable pub run : List Command → Tables → Tables
  run [] t = t
  run (c ∷ cs) t = run cs (step c t).0

  -- The calls of a run that return no error.
  unfoldable pub succeeded : List Command → Tables → List Command
  succeeded [] t = []
  succeeded (c ∷ cs) t =
      let later = succeeded cs (step c t).0 in
      elim ((step c t).1) [ none ↦ c ∷ later | some e ↦ later ]
