-- ===== src/Pipeline/Stored.antt =====
-- What `Run` of internal/pipeline/pipeline.go has stored when it returns.
use logs_tracker.Prelude.{ℕ, String, ◌≡◌, some, none, List, [], ◌∷◌, ◌++◌, get_elem?, false}
use logs_tracker.Source.{RowChange, Transaction}
use logs_tracker.Config.{TableConfig}
use logs_tracker.Snapshot.{Codec}
use logs_tracker.Merkle.Payload.{Runtime}
use logs_tracker.Batch.{Services, Moment, close}
use logs_tracker.Batch.Conservation.{IsDurable, close-Has}
use logs_tracker.Pipeline.{Draw, State, update_configs, audit_config, process_transaction, run}
use logs_tracker.Pipeline.Audited.{IsKeptIn, keep_audit_all, process_transaction-IsKeptIn}

module _ (rt : Runtime) (codec : Codec) {S : Type 0} (services : Services S)
    (unmarshal_columns : String → List String) where
  -- The state after some transactions of the stream, whether they fail or not.
  unfoldable pub state_after : List ((ℕ → Draw) × Transaction) → State S → State S
  state_after [] st = st
  state_after ((draws, tx) ∷ txs) st =
      state_after txs (process_transaction rt codec services unmarshal_columns draws tx st).0

  module _ (Has : String → S → Type 0) (durable : IsDurable services Has) where
    keep_process_transaction :
        (draws : ℕ → Draw) (tx : Transaction) (st : State S) (id : String)
        → IsKeptIn rt codec services Has durable id st
        → IsKeptIn rt codec services Has durable id
            (process_transaction rt codec services unmarshal_columns draws tx st).0
    unfolding process_transaction
    keep_process_transaction draws tx st id h =
        keep_audit_all rt codec services Has durable draws tx 0 tx.changes _ id h

    run-kept :
        (t : Moment) (txs : List ((ℕ → Draw) × Transaction)) (st : State S) (id : String)
        → IsKeptIn rt codec services Has durable id st
        → (run rt codec services unmarshal_columns t txs st).1 ≡ none
        → Has id (run rt codec services unmarshal_columns t txs st).0.services
    unfolding run close
    run-kept t [] st id h n =
        close-Has rt services Has durable t (record st.batcher { timer_set = false }) st.services id
          h n
    run-kept t ((draws, tx) ∷ txs) st id h n =
        run-kept t txs _ id (keep_process_transaction draws tx st id h) n

    -- If a run ends without an error, then the store has, for each transaction of the stream that
    -- was processed without an error and each of its changes that is to be audited by the
    -- configuration after the transactions up to this one, the record under the identifier drawn for
    -- the change, whatever failed before or after it, over a store that keeps what it has taken.
    pub run-Has :
        (t : Moment) (before rest : List ((ℕ → Draw) × Transaction)) (draws : ℕ → Draw)
        (tx : Transaction) (st : State S) (i : ℕ) (c : RowChange) (cfg : TableConfig)
        → get_elem? tx.changes i ≡ some c
        → audit_config c
            (update_configs unmarshal_columns tx.changes (state_after before st).config_mgr)
          ≡ some cfg
        → (process_transaction rt codec services unmarshal_columns draws tx
            (state_after before st)).1
          ≡ none
        → (run rt codec services unmarshal_columns t (before ++ (draws, tx) ∷ rest) st).1 ≡ none
        → Has
            (draws i).record_id
            (run rt codec services unmarshal_columns t (before ++ (draws, tx) ∷ rest) st).0.services
    unfolding run state_after
    run-Has t [] rest draws tx st i c cfg at audited taken n =
        run-kept t rest _ (draws i).record_id
          (process_transaction-IsKeptIn rt codec services Has durable unmarshal_columns draws tx st
            i c cfg at audited taken)
          n
    run-Has t ((d, tx') ∷ before) rest draws tx st i c cfg at audited taken n =
        run-Has t before rest draws tx _ i c cfg at audited taken n
