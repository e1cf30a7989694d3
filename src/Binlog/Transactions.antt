-- ===== src/Binlog/Transactions.antt =====
-- The transactions of the binlog in internal/binlog/client.go.
use mathlib.Core.List.{append-nil, append_assoc}
use logs_tracker.Prelude.{
  append, ℕ, String, ◌≡◌, ◌⊎◌, refl, ◌∙◌, sym, true, false, none, some, List, [], ◌∷◌, ◌++◌, arith,
  All, inl, inr,
}
use logs_tracker.Prelude.Decimal.{decimal}
use logs_tracker.Source.{RowChange, Transaction}
use logs_tracker.Binlog.{Event, Payload, rotate, query, xid, rows, ignored, changes_of}
use logs_tracker.Binlog.Reader.{
  Reader, begin_query, commit_query, rollback_query, other_query, query_kind, dispatch, read_event,
  Input, event, transient, stop, read_loop, sent, unix_time,
}

abbrev pub payload_changes : Payload → List RowChange
payload_changes (rows re) = changes_of re
payload_changes p = []

-- The row changes of the events, in order.
abbrev pub row_changes : List Input → List RowChange
row_changes [] = []
row_changes (event e ∷ rest) = payload_changes e.payload ++ row_changes rest
row_changes (i ∷ rest) = row_changes rest

module _ (upper_trim : String → String) where
  -- The events of an open transaction: rows events, events that the switch passes over (such as the
  -- TableMapEvent before the rows), and queries that are none of BEGIN, COMMIT, ROLLBACK and DDL.
  abbrev pub IsInner : Payload → Type 0
  IsInner (rows re) = Unit
  IsInner ignored = Unit
  IsInner (query q schema) = query_kind upper_trim q ≡ other_query
  IsInner (rotate file n) = ⊥
  IsInner (xid n) = ⊥

  -- What may come within an open transaction: such an event, or an error of the stream.
  abbrev pub Within : Input → Type 0
  Within (event e) = IsInner e.payload
  Within transient = Unit
  Within stop = ⊥

  dispatch-within :
      (r : Reader) (e : Event) (p : Payload)
      → r.in_tx ≡ true
      → IsInner p
      → ((dispatch upper_trim r e p).1 ≡ none)
        × ((dispatch upper_trim r e p).0.in_tx ≡ true)
        × ((dispatch upper_trim r e p).0.current_tx.changes
            ≡ r.current_tx.changes ++ payload_changes p)
        × ((dispatch upper_trim r e p).0.current_tx.committed_at ≡ r.current_tx.committed_at)
  unfolding dispatch
  dispatch-within r e (rows re) t w = (ground arith, ground arith, ground arith, ground arith)
  dispatch-within r e (rotate f n) t w = absurd w
  dispatch-within r e (query q schema) t w = (
    rw (dispatch, w) refl,
    rw (dispatch, w) t,
    rw (dispatch, w) (sym (append-nil _)),
    rw (dispatch, w) refl,
  )
  dispatch-within r e (xid n) t w = absurd w
  dispatch-within r e ignored t w = (refl, t, sym (append-nil _), refl)

  read_event-within :
      (r : Reader) (e : Event)
      → r.in_tx ≡ true
      → IsInner e.payload
      → ((read_event upper_trim r e).1 ≡ none)
        × ((read_event upper_trim r e).0.in_tx ≡ true)
        × ((read_event upper_trim r e).0.current_tx.changes
            ≡ r.current_tx.changes ++ payload_changes e.payload)
        × ((read_event upper_trim r e).0.current_tx.committed_at ≡ r.current_tx.committed_at)
  unfolding read_event
  read_event-within r e t w = dispatch-within r e e.payload t w

  -- Within a transaction the loop only gathers the row changes.
  read_loop-Within :
      (r : Reader) (mid tail : List Input)
      → r.in_tx ≡ true
      → All Within mid
      → (r' : Reader) × (read_loop upper_trim r (mid ++ tail) ≡ read_loop upper_trim r' tail)
        × (r'.in_tx ≡ true)
        × (r'.current_tx.changes ≡ r.current_tx.changes ++ row_changes mid)
        × (r'.current_tx.committed_at ≡ r.current_tx.committed_at)
  unfolding read_loop sent
  read_loop-Within r [] tail t w = (r, refl, t, sym (append-nil _), refl)
  read_loop-Within r (transient ∷ mid) tail t w = read_loop-Within r mid tail t w.1
  read_loop-Within r (stop ∷ mid) tail t w = absurd w.0
  read_loop-Within r (event e ∷ mid) tail t w =
      let (silent, t', more, at) = read_event-within r e t w.0 in
      let (r', e', t'', c, at') = read_loop-Within (read_event upper_trim r e).0 mid tail t' w.1 in
      (
        r',
        rw silent e',
        t'',
        c
            ∙ rw more
                (append_assoc r.current_tx.changes (payload_changes e.payload) (row_changes mid)),
        at' ∙ at,
      )

  -- The events that open and close a transaction.
  abbrev pub IsBegin : Event → Type 0
  IsBegin e =
      (q : String) × (schema : String) × (e.payload ≡ query q schema)
      × (query_kind upper_trim q ≡ begin_query)

  abbrev pub IsRollback : Event → Type 0
  IsRollback e =
      (q : String) × (schema : String) × (e.payload ≡ query q schema)
      × (query_kind upper_trim q ≡ rollback_query)

  -- A COMMIT query, or the XID event of a transaction.
  abbrev pub IsCommit : Event → Type 0
  IsCommit e =
      ((q : String) × (schema : String) × (e.payload ≡ query q schema)
        × (query_kind upper_trim q ≡ commit_query))
      ⊎ ((n : ℕ) × (e.payload ≡ xid n))

  read_event-begin :
      (r : Reader) (e : Event)
      → IsBegin e
      → ((read_event upper_trim r e).1 ≡ none)
        × ((read_event upper_trim r e).0.in_tx ≡ true)
        × ((read_event upper_trim r e).0.current_tx.changes ≡ [])
        × ((read_event upper_trim r e).0.current_tx.committed_at ≡ unix_time e.timestamp)
  unfolding read_event dispatch
  read_event-begin r e (q, schema, p, k) = (ground arith, ground arith, ground arith, ground arith)

  read_event-commit :
      (r : Reader) (e : Event)
      → r.in_tx ≡ true
      → IsCommit e
      → (tx : Transaction) × ((read_event upper_trim r e).1 ≡ some tx)
        × (tx.changes ≡ r.current_tx.changes)
        × (tx.committed_at ≡ r.current_tx.committed_at)
        × (tx.position.position ≡ e.log_pos)
        × ((read_event upper_trim r e).0.in_tx ≡ false)
        × ((read_event upper_trim r e).0.current_pos.position ≡ e.log_pos)
  unfolding read_event dispatch
  read_event-commit r e t (inl (q, schema, p, k)) = (
    record r.current_tx { position = record r.current_tx.position { position = e.log_pos } },
    ground arith,
    refl,
    refl,
    refl,
    ground arith,
    ground arith,
  )
  read_event-commit r e t (inr (n, p)) = (
    record r.current_tx {
      transaction_id = append "xid:" (decimal n);
      position = record r.current_tx.position { position = e.log_pos };
    },
    ground arith,
    refl,
    refl,
    refl,
    ground arith,
    ground arith,
  )

  read_event-rollback :
      (r : Reader) (e : Event)
      → IsRollback e
      → ((read_event upper_trim r e).1 ≡ none)
        × ((read_event upper_trim r e).0.in_tx ≡ false)
        × ((read_event upper_trim r e).0.current_tx.changes ≡ [])
  unfolding read_event dispatch
  read_event-rollback r e (q, schema, p, k) = (ground arith, ground arith, ground arith)

  -- Of a BEGIN, the events of a transaction (rows events, events that the loop passes over, and
  -- queries that are none of BEGIN, COMMIT, ROLLBACK and DDL), with errors of the stream that pass,
  -- and a COMMIT or an XID event, the loop sends one transaction, at once, with the row changes in
  -- between, all of them and in their order, the time of the BEGIN and the position of the COMMIT.
  pub read_loop-transaction :
      (r : Reader) (b c : Event) (mid rest : List Input)
      → IsBegin b
      → All Within mid
      → IsCommit c
      → (tx : Transaction) × (r' : Reader) × (read_loop upper_trim r
            (event b ∷ mid ++ event c ∷ rest)
          ≡ ((read_loop upper_trim r' rest).0, tx ∷ (read_loop upper_trim r' rest).1))
        × (tx.changes ≡ row_changes mid)
        × (tx.committed_at ≡ unix_time b.timestamp)
        × (tx.position.position ≡ c.log_pos)
        × (r'.in_tx ≡ false)
        × (r'.current_pos.position ≡ c.log_pos)
  unfolding read_loop sent
  read_loop-transaction r b c mid rest begins within commits =
      let (quiet, t, none_yet, at) = read_event-begin r b begins in
      let (r', e, t', c', at') =
        read_loop-Within (read_event upper_trim r b).0 mid (event c ∷ rest) t within in
      let (tx, sends, changes, time, pos, closed, checkpoint) = read_event-commit r' c t' commits in
      (
        tx,
        (read_event upper_trim r' c).0,
        rw (quiet, e) (rw sends),
        changes ∙ c' ∙ rw none_yet,
        time ∙ at' ∙ at,
        pos,
        closed,
        checkpoint,
      )

  -- Of a BEGIN, the events of a transaction (rows events, events that the loop passes over, and
  -- queries that are none of BEGIN, COMMIT, ROLLBACK and DDL), with errors of the stream that pass,
  -- and a ROLLBACK, the loop sends nothing, and it goes on with an empty buffer.
  pub read_loop-rollback :
      (r : Reader) (b c : Event) (mid rest : List Input)
      → IsBegin b
      → All Within mid
      → IsRollback c
      → (r' : Reader) × (read_loop upper_trim r (event b ∷ mid ++ event c ∷ rest)
          ≡ read_loop upper_trim r' rest)
        × (r'.in_tx ≡ false)
        × (r'.current_tx.changes ≡ [])
  unfolding read_loop sent
  read_loop-rollback r b c mid rest begins within rolls_back =
      let (quiet, t, none_yet, at) = read_event-begin r b begins in
      let (r', e, t', c', at') =
        read_loop-Within (read_event upper_trim r b).0 mid (event c ∷ rest) t within in
      let (sends, closed, empty) = read_event-rollback r' c rolls_back in
      ((read_event upper_trim r' c).0, rw (quiet, e) (rw sends), closed, empty)
