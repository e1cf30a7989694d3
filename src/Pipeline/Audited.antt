-- ===== src/Pipeline/Audited.antt =====
-- What internal/pipeline/pipeline.go keeps of the changes that are to be audited.
use logs_tracker.Prelude.{
  ℕ, zero, suc, ◌+◌, String, ◌≡◌, refl, ap, sym, subst, ◌∙◌, Option, none, some, Option-cases, List,
  [], ◌∷◌, get_elem?, arith, inl, inr,
}
use logs_tracker.Errors.{GoError, Result, ok, err}
use logs_tracker.Source.{RowChange, Transaction}
use logs_tracker.Config.{TableConfig}
use logs_tracker.Attribution.{ActorAttribution}
use logs_tracker.Store.{Record}
use logs_tracker.Snapshot.{Codec}
use logs_tracker.Snapshot.Fields.{build_record-id}
use logs_tracker.Merkle.Payload.{Runtime}
use logs_tracker.Batch.{Batcher, Services, Moment, add_record}
use logs_tracker.Batch.Conservation.{
  IsDurable, IsSafe, add, timer, step, step-IsSafe, added_one-IsSafe,
}
use logs_tracker.Pipeline.{
  Draw, State, update_configs, audit_config, record_added, take_record, audit, audit_all, ticked,
  process_transaction,
}

module _ (rt : Runtime) (codec : Codec) {S : Type 0} (services : Services S)
    (Has : String → S → Type 0) (durable : IsDurable services Has) where
  -- The record is in the open batch or in the store.
  abbrev pub IsKeptIn : String → State S → Type 0
  IsKeptIn id st = IsSafe rt services Has durable id st.batcher st.services

  record_added-IsKeptIn :
      (id : String) (st : State S) (b : Batcher) (s : S) (e : Option GoError)
      → IsSafe rt services Has durable id b s
      → IsKeptIn id (record_added rt codec services st (b, s, e)).0
  unfolding record_added
  record_added-IsKeptIn id st b s none h = h
  record_added-IsKeptIn id st b s (some e) h = h

  keep_take_record :
      (d : Draw) (tx : Transaction) (c : RowChange) (attr : ActorAttribution) (st : State S)
      (o : Result Record) (id : String)
      → IsKeptIn id st
      → IsKeptIn id (take_record rt codec services d tx c attr st o).0
  unfolding take_record
  keep_take_record d tx c attr st (err e) id h = h
  keep_take_record d tx c attr st (ok r) id h = record_added-IsKeptIn id _ _ _ _ (
      unfold step in
      step-IsSafe rt services Has durable (add d.moment r tx.position) st.batcher st.services id h)

  new_take_record :
      (d : Draw) (tx : Transaction) (c : RowChange) (attr : ActorAttribution) (st : State S)
      (o : Result Record)
      → ((r : Record) → o ≡ ok r → r.id ≡ d.record_id)
      → (take_record rt codec services d tx c attr st o).1 ≡ none
      → IsKeptIn d.record_id (take_record rt codec services d tx c attr st o).0
  unfolding take_record
  new_take_record d tx c attr st (err e) same n = cc
  new_take_record d tx c attr st (ok r) same n = record_added-IsKeptIn d.record_id _ _ _ _ (
      subst
        (λ j.
          IsSafe rt services Has durable j
            (add_record rt services d.moment r tx.position st.batcher st.services).0
            (add_record rt services d.moment r tx.position st.batcher st.services).1)
        (same r refl)
        (added_one-IsSafe rt services Has durable d.moment r tx.position st.batcher st.services))

  keep_audit :
      (d : Draw) (tx : Transaction) (c : RowChange) (st : State S) (o : Option TableConfig)
      (id : String)
      → IsKeptIn id st
      → IsKeptIn id (audit rt codec services d tx c st o).0
  unfolding audit
  keep_audit d tx c st none id h = h
  keep_audit d tx c st (some cfg) id h = keep_take_record d tx c _ st _ id h

  new_audit :
      (d : Draw) (tx : Transaction) (c : RowChange) (st : State S) (cfg : TableConfig)
      → (audit rt codec services d tx c st (some cfg)).1 ≡ none
      → IsKeptIn d.record_id (audit rt codec services d tx c st (some cfg)).0
  unfolding audit
  new_audit d tx c st cfg n =
      new_take_record d tx c _ st _ (λ r e. build_record-id codec d.record_id c cfg _ _ _ _ r e) n

  config_record_added :
      (st : State S) (b : Batcher) (s : S) (e : Option GoError)
      → (record_added rt codec services st (b, s, e)).0.config_mgr ≡ st.config_mgr
  unfolding record_added
  config_record_added st b s none = refl
  config_record_added st b s (some e) = refl

  config_take_record :
      (d : Draw) (tx : Transaction) (c : RowChange) (attr : ActorAttribution) (st : State S)
      (o : Result Record)
      → (take_record rt codec services d tx c attr st o).0.config_mgr ≡ st.config_mgr
  unfolding take_record
  config_take_record d tx c attr st (err e) = refl
  config_take_record d tx c attr st (ok r) = config_record_added _ _ _ _

  config_audit :
      (d : Draw) (tx : Transaction) (c : RowChange) (st : State S) (o : Option TableConfig)
      → (audit rt codec services d tx c st o).0.config_mgr ≡ st.config_mgr
  unfolding audit
  config_audit d tx c st none = refl
  config_audit d tx c st (some cfg) = config_take_record d tx c _ st _

  keep_ticked :
      (o : Option Moment) (st : State S) (id : String)
      → IsKeptIn id st
      → IsKeptIn id (ticked rt codec services o st)
  unfolding ticked step
  keep_ticked none st id h = h
  keep_ticked (some t) st id h =
      step-IsSafe rt services Has durable (timer t) st.batcher st.services id h

  config_ticked :
      (o : Option Moment) (st : State S)
      → (ticked rt codec services o st).config_mgr ≡ st.config_mgr
  unfolding ticked
  config_ticked none st = refl
  config_ticked (some t) st = refl

  pub keep_audit_all :
      (draws : ℕ → Draw) (tx : Transaction) (k : ℕ) (cs : List RowChange) (st : State S)
      (id : String)
      → IsKeptIn id st
      → IsKeptIn id (audit_all rt codec services draws tx k cs st).0
  unfolding audit_all
  keep_audit_all draws tx k [] st id h = keep_ticked (draws k).timer st id h
  keep_audit_all draws tx k (c ∷ cs) st id h =
      let now = ticked rt codec services (draws k).timer st in
      let next = audit rt codec services (draws k) tx c now (audit_config c now.config_mgr) in
      let kept =
        keep_audit (draws k) tx c now (audit_config c now.config_mgr) id
          (keep_ticked (draws k).timer st id h) in
      elim (Option-cases next.1) [
        | inr (x, e) ↦ rw (audit_all, e) kept
        | inl e ↦ rw (audit_all, e) (keep_audit_all draws tx (suc k) cs next.0 id kept)
      ]

  new_audit_all :
      (draws : ℕ → Draw) (tx : Transaction) (k i : ℕ) (cs : List RowChange) (st : State S)
      (c : RowChange) (cfg : TableConfig)
      → get_elem? cs i ≡ some c
      → audit_config c st.config_mgr ≡ some cfg
      → (audit_all rt codec services draws tx k cs st).1 ≡ none
      → IsKeptIn (draws (k + i)).record_id (audit_all rt codec services draws tx k cs st).0
  unfolding audit_all
  new_audit_all draws tx k i [] st c cfg at audited n = cc
  new_audit_all draws tx k zero (q ∷ cs) st c cfg at audited n =
      let q_is : q ≡ c = cc in
      let now = ticked rt codec services (draws k).timer st in
      let configured : audit_config q now.config_mgr ≡ some cfg =
        ap (audit_config q) (config_ticked (draws k).timer st)
        ∙ ap (λ x. audit_config x st.config_mgr) q_is
        ∙ audited in
      let next = audit rt codec services (draws k) tx q now (audit_config q now.config_mgr) in
      let place : k ≡ k + 0 = omega arith in
      elim (Option-cases next.1) [
        | inr (x, e) ↦ cc (rw (audit_all, e) at n)
        | inl e ↦
            let kept : IsKeptIn (draws k).record_id next.0 =
              subst
                (λ o.
                  (audit rt codec services (draws k) tx q now o).1 ≡ none
                  → IsKeptIn (draws k).record_id (audit rt codec services (draws k) tx q now o).0)
                (sym configured) (new_audit (draws k) tx q now cfg) e in
            subst
              (λ j.
                IsKeptIn (draws j).record_id (audit_all rt codec services draws tx k (q ∷ cs) st).0)
              place
              (rw (audit_all, e)
                (keep_audit_all draws tx (suc k) cs next.0 (draws k).record_id kept))
      ]
  new_audit_all draws tx k (suc i) (q ∷ cs) st c cfg at audited n =
      let now = ticked rt codec services (draws k).timer st in
      let next = audit rt codec services (draws k) tx q now (audit_config q now.config_mgr) in
      let place : suc k + i ≡ k + suc i = omega arith in
      let same =
        config_audit (draws k) tx q now (audit_config q now.config_mgr)
        ∙ config_ticked (draws k).timer st in
      elim (Option-cases next.1) [
        | inr (x, e) ↦ cc (rw (audit_all, e) at n)
        | inl e ↦
            let ih =
              new_audit_all draws tx (suc k) i cs next.0 c cfg at
                (ap (audit_config c) same ∙ audited) (rw (audit_all, e) at n) in
            subst
              (λ j.
                IsKeptIn (draws j).record_id (audit_all rt codec services draws tx k (q ∷ cs) st).0)
              place (rw (audit_all, e) ih)
      ]

  -- If a transaction is processed without an error, then each of its changes of a table that is
  -- neither internal nor unaudited, by the configuration after the transaction's own changes of it,
  -- has a record, under the identifier drawn for the change, in the open batch or in the store,
  -- over a store that keeps what it has taken without an error.
  pub process_transaction-IsKeptIn :
      (unmarshal_columns : String → List String) (draws : ℕ → Draw) (tx : Transaction)
      (st : State S) (i : ℕ) (c : RowChange) (cfg : TableConfig)
      → get_elem? tx.changes i ≡ some c
      → audit_config c (update_configs unmarshal_columns tx.changes st.config_mgr) ≡ some cfg
      → (process_transaction rt codec services unmarshal_columns draws tx st).1 ≡ none
      → IsKeptIn
          (draws i).record_id
          (process_transaction rt codec services unmarshal_columns draws tx st).0
  unfolding process_transaction
  process_transaction-IsKeptIn unmarshal_columns draws tx st i c cfg at audited n =
      let place : 0 + i ≡ i = omega arith in
      subst
        (λ j.
          IsKeptIn (draws j).record_id
            (process_transaction rt codec services unmarshal_columns draws tx st).0)
        place (new_audit_all draws tx 0 i tx.changes _ c cfg at audited n)
