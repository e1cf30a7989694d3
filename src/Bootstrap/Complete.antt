-- ===== src/Bootstrap/Complete.antt =====
-- A run of internal/bootstrap/bootstrap.go that reports no error.
use logs_tracker.Prelude.{
  ℕ, zero, suc, ◌+◌, String, append, ◌≡◌, refl, subst, true, Option, none, some, Option-cases, List,
  [], ◌∷◌, get_elem?, arith, inl, inr,
}
use logs_tracker.Errors.{GoError, Result, ok, err}
use logs_tracker.Source.{Value}
use logs_tracker.Config.{TableConfig, get_table_config}
use logs_tracker.Store.{Record}
use logs_tracker.Snapshot.{Codec}
use logs_tracker.Merkle.Payload.{Runtime}
use logs_tracker.Batch.{Batcher, Services, add_record, flush, set_bootstrap_mode}
use logs_tracker.Batch.Conservation.{
  IsDurable, IsSafe, add, step, step-IsSafe, added_one-IsSafe, close-Has,
}
use logs_tracker.Snapshot.Fields.{build_record-id}
use logs_tracker.Bootstrap.{
  Runner, Answers, RowDraw, RunDraw, Run, stop_run, batched, take_row, scan_row, take_rows,
  completed, flushed, rows_taken, with_columns, in_progress, configured, bootstrap_table,
  row_change, after_map, system_actor, bootstrap_position,
}

module _ (rt : Runtime) (codec : Codec) {S D : Type 0} (services : Services S)
    (update_status : String → String → D → D × Option GoError) (d : RunDraw) (table : String)
    (Has : String → S → Type 0) (durable : IsDurable services Has) where
  abbrev IsKeptIn : String → Runner S D → Type 0
  IsKeptIn id r = IsSafe rt services Has durable id r.batcher r.services

  batched-IsKeptIn :
      (id what : String) (r : Runner S D) (b : Batcher) (s : S) (e : Option GoError)
      → IsSafe rt services Has durable id b s
      → IsKeptIn id (batched rt codec services update_status d table what r (b, s, e)).0
  unfolding batched stop_run
  batched-IsKeptIn id what r b s none h = h
  batched-IsKeptIn id what r b s (some e) h = h

  keep_take_row :
      (w : RowDraw) (r : Runner S D) (o : Result Record) (id : String)
      → IsKeptIn id r
      → IsKeptIn id (take_row rt codec services update_status d table w r o).0
  unfolding take_row stop_run
  keep_take_row w r (err e) id h = h
  keep_take_row w r (ok q) id h = batched-IsKeptIn id _ _ _ _ _ (
      unfold step in
      step-IsSafe rt services Has durable (add w.moment q bootstrap_position) r.batcher r.services
        id h)

  new_take_row :
      (w : RowDraw) (r : Runner S D) (o : Result Record)
      → ((q : Record) → o ≡ ok q → q.id ≡ w.record_id)
      → (take_row rt codec services update_status d table w r o).1 ≡ none
      → IsKeptIn w.record_id (take_row rt codec services update_status d table w r o).0
  unfolding take_row stop_run
  new_take_row w r (err e) same n = cc
  new_take_row w r (ok q) same n = batched-IsKeptIn w.record_id _ _ _ _ _ (
      subst
        (λ j.
          IsSafe rt services Has durable j
            (add_record rt services w.moment q bootstrap_position r.batcher r.services).0
            (add_record rt services w.moment q bootstrap_position r.batcher r.services).1)
        (same q refl)
        (added_one-IsSafe rt services Has durable w.moment q bootstrap_position r.batcher
          r.services))

  module _ (cfg : TableConfig) (cols : List String) (draws : ℕ → RowDraw) where
    keep_scan_row :
        (w : RowDraw) (i : ℕ) (r : Runner S D) (row : Result (List Value)) (id : String)
        → IsKeptIn id r
        → IsKeptIn id (scan_row rt codec services update_status d table cfg cols w i r row).0
    unfolding scan_row stop_run
    keep_scan_row w i r (err e) id h = h
    keep_scan_row w i r (ok vals) id h = keep_take_row w r _ id h

    new_scan_row :
        (w : RowDraw) (i : ℕ) (r : Runner S D) (row : Result (List Value))
        → (scan_row rt codec services update_status d table cfg cols w i r row).1 ≡ none
        → IsKeptIn w.record_id
            (scan_row rt codec services update_status d table cfg cols w i r row).0
    unfolding scan_row stop_run
    new_scan_row w i r (err e) n = cc
    new_scan_row w i r (ok vals) n =
        new_take_row w r _
          (λ q e.
            build_record-id codec w.record_id (row_change table (after_map cols vals [])) cfg
              system_actor (append "bootstrap:" table) w.now i q e)
          n

    keep_take_rows :
        (k : ℕ) (rows : List (Result (List Value))) (r : Runner S D) (id : String)
        → IsKeptIn id r
        → IsKeptIn id (take_rows rt codec services update_status d table cfg cols draws k rows r).0
    unfolding take_rows
    keep_take_rows k [] r id h = h
    keep_take_rows k (row ∷ rows) r id h =
        let next = scan_row rt codec services update_status d table cfg cols (draws k) k r row in
        let kept = keep_scan_row (draws k) k r row id h in
        elim (Option-cases next.1) [
          | inr (x, e) ↦ rw (take_rows, e) kept
          | inl e ↦ rw (take_rows, e) (keep_take_rows (suc k) rows next.0 id kept)
        ]

    new_take_rows :
        (k i : ℕ) (rows : List (Result (List Value))) (r : Runner S D) (row : Result (List Value))
        → get_elem? rows i ≡ some row
        → (take_rows rt codec services update_status d table cfg cols draws k rows r).1 ≡ none
        → IsKeptIn
            (draws (k + i)).record_id
            (take_rows rt codec services update_status d table cfg cols draws k rows r).0
    unfolding take_rows
    new_take_rows k i [] r row at n = cc
    new_take_rows k zero (q ∷ rows) r row at n =
        let next = scan_row rt codec services update_status d table cfg cols (draws k) k r q in
        let place : k ≡ k + 0 = omega arith in
        elim (Option-cases next.1) [
          | inr (x, e) ↦ cc (rw (take_rows, e) at n)
          | inl e ↦
              subst
                (λ j.
                  IsKeptIn (draws j).record_id
                    (take_rows rt codec services update_status d table cfg cols draws k (q ∷ rows)
                      r).0)
                place
                (rw (take_rows, e)
                  (keep_take_rows (suc k) rows next.0 (draws k).record_id
                    (new_scan_row (draws k) k r q e)))
        ]
    new_take_rows k (suc i) (q ∷ rows) r row at n =
        let next = scan_row rt codec services update_status d table cfg cols (draws k) k r q in
        let place : suc k + i ≡ k + suc i = omega arith in
        elim (Option-cases next.1) [
          | inr (x, e) ↦ cc (rw (take_rows, e) at n)
          | inl e ↦
              subst
                (λ j.
                  IsKeptIn (draws j).record_id
                    (take_rows rt codec services update_status d table cfg cols draws k (q ∷ rows)
                      r).0)
                place
                (rw (take_rows, e)
                  (new_take_rows (suc k) i rows next.0 row at (rw (take_rows, e) at n)))
        ]

  -- From the flush on: the records of the buffer are stored.
  batched-Has :
      (id what : String) (r : Runner S D) (b : Batcher) (s : S) (e : Option GoError)
      → (batched rt codec services update_status d table what r (b, s, e)).1 ≡ none
      → (e ≡ none → Has id s)
      → Has id (batched rt codec services update_status d table what r (b, s, e)).0.services
  unfolding batched stop_run
  batched-Has id what r b s none n h = h refl
  batched-Has id what r b s (some e) n h = cc

  completed-Has :
      (id : String) (cfg : TableConfig) (r : Runner S D) (db : D) (e : Option GoError)
      → Has id r.services
      → Has id (completed rt codec services update_status d table cfg r (db, e)).0.services
  unfolding completed
  completed-Has id cfg r db none h = h
  completed-Has id cfg r db (some e) h = h

  flushed-Has :
      (id : String) (cfg : TableConfig) (run : Run rt codec services update_status d table)
      → (flushed rt codec services update_status d table cfg run).1 ≡ none
      → (run.1 ≡ none → Has id run.0.services)
      → Has id (flushed rt codec services update_status d table cfg run).0.services
  unfolding flushed
  flushed-Has id cfg (r, some e) n h = cc
  flushed-Has id cfg (r, none) n h = completed-Has id cfg r _ _ (h refl)

  rows_taken-Has :
      (id : String) (cfg : TableConfig) (run : Run rt codec services update_status d table)
      → (rows_taken rt codec services update_status d table cfg run).1 ≡ none
      → (run.1 ≡ none → IsKeptIn id run.0)
      → Has id (rows_taken rt codec services update_status d table cfg run).0.services
  unfolding rows_taken flush
  rows_taken-Has id cfg (r, some e) n h = cc
  rows_taken-Has id cfg (r, none) n h = flushed-Has id cfg _ n (λ m.
      batched-Has id _ r _ _ _ m
        (λ k. close-Has rt services Has durable d.flush_at r.batcher r.services id (h refl) k))

  module _ (draws : ℕ → RowDraw) (i : ℕ) (row : Result (List Value)) (a : Answers)
      (yielded : get_elem? a.rows i ≡ some row) where
    with_columns-Has :
        (cfg : TableConfig) (r : Runner S D) (o : Result (List String))
        → (with_columns rt codec services update_status d table cfg draws a.rows r o).1 ≡ none
        → Has
            (draws i).record_id
            (with_columns rt codec services update_status d table cfg draws a.rows r o).0.services
    unfolding with_columns stop_run
    with_columns-Has cfg r (err e) n = cc
    with_columns-Has cfg r (ok cols) n =
        let place : 0 + i ≡ i = omega arith in
        let start = record r { batcher = set_bootstrap_mode true table r.batcher } in
        let taken =
          take_rows rt codec services update_status d table cfg cols draws 0 a.rows start in
        rows_taken-Has (draws i).record_id cfg taken n (λ m.
          subst (λ j. IsKeptIn (draws j).record_id taken.0) place
            (new_take_rows cfg cols draws 0 i a.rows start row yielded m))

    in_progress-Has :
        (cfg : TableConfig) (r : Runner S D) (db : D) (e : Option GoError)
        → (in_progress rt codec services update_status d table cfg draws a r (db, e)).1 ≡ none
        → Has
            (draws i).record_id
            (in_progress rt codec services update_status d table cfg draws a r (db, e)).0.services
    unfolding in_progress stop_run
    in_progress-Has cfg r db (some e) n = cc
    in_progress-Has cfg r db none n = elim (Option-cases a.begin) [
      | inr (x, e) ↦ cc (rw (in_progress, e) at n)
      | inl e ↦ elim (Option-cases a.query) [
        | inr (x, e') ↦ cc (rw (in_progress, e, e') at n)
        | inl e' ↦
            rw (in_progress, e, e')
              (with_columns-Has cfg (record r { db = db }) a.columns (rw (in_progress, e, e') at n))
      ]
    ]

    configured-Has :
        (r : Runner S D) (o : Option TableConfig)
        → (configured rt codec services update_status d table draws a r o).1 ≡ none
        → Has
            (draws i).record_id
            (configured rt codec services update_status d table draws a r o).0.services
    unfolding configured
    configured-Has r none n = cc
    configured-Has r (some cfg) n = in_progress-Has cfg r _ _ n

    -- If the bootstrap of a table returns no error, then the store has a record for each row that
    -- the database yielded, under the identifier drawn for the row, over a store that keeps what
    -- it has taken without an error.
    pub bootstrap_table-Has :
        (r : Runner S D)
        → (bootstrap_table rt codec services update_status d table draws a r).1 ≡ none
        → Has
            (draws i).record_id
            (bootstrap_table rt codec services update_status d table draws a r).0.services
    unfolding bootstrap_table
    bootstrap_table-Has r n = configured-Has r (get_table_config table r.config_mgr) n
