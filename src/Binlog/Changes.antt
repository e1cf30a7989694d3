-- ===== src/Binlog/Changes.antt =====
-- A property of single changes over all that internal/binlog/client.go sends.
use logs_tracker.Prelude.{
  ℕ, String, ◌≡◌, refl, Option, none, some, List, [], ◌∷◌, All, All-append, inl, inr, Bool-cases,
}
use logs_tracker.Source.{RowChange, Transaction}
use logs_tracker.Binlog.{RowsEvent, Event, Payload, rotate, query, xid, rows, ignored, changes_of}
use logs_tracker.Binlog.Reader.{
  Reader, QueryKind, begin_query, commit_query, rollback_query, ddl_query, other_query, query_kind,
  commit, on_query, on_xid, on_rows, dispatch, read_event, Input, event, transient, stop, read_loop,
  sent, update_checkpoint,
}

-- What no row change and no DDL change breaks holds of every change that is sent.
module _ (P : RowChange → Type 0) (of_rows : (re : RowsEvent) → All P (changes_of re))
    (of_ddl : (c : RowChange) → c.before_image ≡ none → c.after_image ≡ none → P c) where
  abbrev AllSent : Option Transaction → Type 0
  AllSent none = Unit
  AllSent (some tx) = All P tx.changes

  record Holds (s : Reader × Option Transaction) : Type 0 where
    kept : All P s.0.current_tx.changes
    out : AllSent s.1

  on_rows-All :
      (r : Reader) (e : Event) (re : RowsEvent)
      → All P r.current_tx.changes
      → Holds (on_rows r e re)
  unfolding on_rows
  on_rows-All r e re h = elim (Bool-cases r.in_tx) [
    | inl t ↦
        rw (t, on_rows)
          (record {
            kept = All-append P r.current_tx.changes (changes_of re) h (of_rows re);
            out = tt;
          })
    | inr f ↦ rw (f, on_rows) (record { kept = h; out = of_rows re })
  ]

  commit-All : (r : Reader) (tx : Transaction) → All P tx.changes → Holds (commit r tx)
  unfolding commit
  commit-All r tx h = record { kept = tt; out = h }

  on_query-All :
      (r : Reader) (e : Event) (q schema : String) (k : QueryKind)
      → All P r.current_tx.changes
      → Holds (on_query r e q schema k)
  unfolding on_query update_checkpoint
  on_query-All r e q schema begin_query h = record { kept = tt; out = tt }
  on_query-All r e q schema commit_query h = elim (Bool-cases r.in_tx) [
    | inl t ↦ rw (t, on_query) (commit-All r _ h)
    | inr f ↦ rw (f, on_query) (record { kept = h; out = tt })
  ]
  on_query-All r e q schema rollback_query h = record { kept = tt; out = tt }
  on_query-All r e q schema ddl_query h = record { kept = h; out = (of_ddl _ refl refl, tt) }
  on_query-All r e q schema other_query h = record { kept = h; out = tt }

  on_xid-All : (r : Reader) (e : Event) (n : ℕ) → All P r.current_tx.changes → Holds (on_xid r e n)
  unfolding on_xid
  on_xid-All r e n h = elim (Bool-cases r.in_tx) [
    | inl t ↦ rw (t, on_xid) (commit-All r _ h)
    | inr f ↦ rw (f, on_xid) (record { kept = h; out = tt })
  ]

  dispatch-All :
      (upper_trim : String → String) (r : Reader) (e : Event) (p : Payload)
      → All P r.current_tx.changes
      → Holds (dispatch upper_trim r e p)
  unfolding dispatch
  dispatch-All upper_trim r e (rotate file n) h = record { kept = h; out = tt }
  dispatch-All upper_trim r e (query q schema) h =
      on_query-All r e q schema (query_kind upper_trim q) h
  dispatch-All upper_trim r e (xid n) h = on_xid-All r e n h
  dispatch-All upper_trim r e (rows re) h = on_rows-All r e re h
  dispatch-All upper_trim r e ignored h = record { kept = h; out = tt }

  All-sent :
      (o : Option Transaction) (out : List Transaction)
      → AllSent o
      → All (λ tx. All P tx.changes) out
      → All (λ tx. All P tx.changes) (sent o out)
  unfolding sent
  All-sent none out h k = k
  All-sent (some tx) out h k = (h, k)

  pub read_loop-All :
      (upper_trim : String → String) (r : Reader) (inputs : List Input)
      → All P r.current_tx.changes
      → All (λ tx. All P tx.changes) (read_loop upper_trim r inputs).1
  unfolding read_loop read_event
  read_loop-All upper_trim r [] h = tt
  read_loop-All upper_trim r (event e ∷ rest) h =
      let step = dispatch-All upper_trim r e e.payload h in
      All-sent _ _ step.out (read_loop-All upper_trim (read_event upper_trim r e).0 rest step.kept)
  read_loop-All upper_trim r (transient ∷ rest) h = read_loop-All upper_trim r rest h
  read_loop-All upper_trim r (stop ∷ rest) h = tt
