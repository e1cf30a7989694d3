-- ===== src/Batch/Conservation.antt =====
-- The records that the operations of internal/batch/batcher.go hold, in the buffer and the store.
use logs_tracker.Prelude.{
  ◌∙◌, some, zero, suc, map-append, false, String, ◌≡◌, ◌⊎◌, inl, inr, refl, ap, sym, subst, Bool,
  Bool-cases, none, List, [], ◌∷◌, ◌++◌, length, leb, Occurs, Occurs-append_left,
  Occurs-append_right, map,
}
use logs_tracker.Source.{Position}
use logs_tracker.Merkle.Payload.{Runtime}
use logs_tracker.Store.{Batch, Record}
use logs_tracker.Alerting.{Alert}
use logs_tracker.Batch.{
  Batcher, Services, Moment, Closed, set_bootstrap_mode, queue_alert, close_current_batch,
  batch_row, flush, close, on_timer, add_record, numbered,
}
use logs_tracker.Batch.Closing.{Success, close_current_batch_cases}
use logs_tracker.Batch.Numbering.{buffered, close_empty, records_cases}
use logs_tracker.Batch.Kept.{IsKept, keep_dispatch, keep_close}

-- The calls that change a batcher.
pub data Op : Type 0 where
  add : Moment → Record → Position → Op
  timer : Moment → Op
  flush_now : Moment → Op
  shut : Moment → Op
  queue : Alert → Op
  bootstrap : Bool → String → Op

module _ (rt : Runtime) {S : Type 0} (services : Services S) where
  unfoldable pub step : Op → Batcher → S → Closed rt services
  step (add t r pos) b s = add_record rt services t r pos b s
  step (timer t) b s = on_timer rt services t b s
  step (flush_now t) b s = flush rt services t b s
  step (shut t) b s = close rt services t b s
  step (queue a) b s = (queue_alert a b, s, none)
  step (bootstrap is table) b s = (set_bootstrap_mode is table b, s, none)

  -- A run goes on after an error.
  unfoldable pub run : List Op → Batcher → S → Batcher × S
  run [] b s = (b, s)
  run (op ∷ ops) b s = let next = step op b s in run ops next.0 next.1

-- The store tells of an identifier that it has the record. A store that takes a batch without an
-- error has its records, and no service removes one.
pub record IsDurable {S : Type 0} (services : Services S) (Has : String → S → Type 0) : Type 0 where
  pub created :
      (row : Batch) (rs : List Record) (s : S) (id : String)
      → (services.create_batch row rs s).1 ≡ none
      → Occurs id (map (λ r. r.id) rs)
      → Has id (services.create_batch row rs s).0
  pub keeps : (id : String) → IsKept services (Has id)

abbrev pub added : List Op → List String
added [] = []
added (add t r pos ∷ ops) = r.id ∷ added ops
added (timer t ∷ ops) = added ops
added (flush_now t ∷ ops) = added ops
added (shut t ∷ ops) = added ops
added (queue a ∷ ops) = added ops
added (bootstrap is table ∷ ops) = added ops

module _ (rt : Runtime) {S : Type 0} (services : Services S) (Has : String → S → Type 0)
    (durable : IsDurable services Has) where
  abbrev pub IsSafe : String → Batcher → S → Type 0
  IsSafe id b s = Occurs id (map (λ r. r.id) b.records) ⊎ Has id s

  Success-Has :
      (t : Moment) (b : Batcher) (s : S) (result : Closed rt services) (id : String)
      → Success rt services t b s result
      → Occurs id (map (λ r. r.id) b.records)
      → Has id result.1
  Success-Has t b s result id w o =
      let k = durable.keeps id in
      let row = batch_row t b w.tree.root w.signature w.version in
      let stored : Has id w.stored =
        subst (λ r. Has id r.0) w.stores
          (durable.created row b.records s id (ap (λ r. r.1) w.stores) o) in
      let anchored : Has id w.anchored =
        subst (λ r. Has id r.0) w.anchors (k.by_put b.current_batch_id w.content w.stored stored) in
      let told =
        k.by_closed row _
          (keep_dispatch rt services (Has id) k b.alerts_queue w.anchored anchored) in
      subst (λ r. Has id r.1) (sym w.outcome) told

  close-IsSafe :
      (t : Moment) (b : Batcher) (s : S) (id : String)
      → IsSafe id b s
      → IsSafe id
          (close_current_batch rt services t b s).0
          (close_current_batch rt services t b s).1
  close-IsSafe t b s id (inr h) = inr (keep_close rt services (Has id) (durable.keeps id) t b s h)
  close-IsSafe t b s id (inl o) = elim (records_cases b.records) [
    | inl e ↦ subst (λ r. IsSafe id r.0 r.1) (sym (close_empty rt services t b s e)) (inl o)
    | inr n ↦ elim (close_current_batch_cases rt services t b s n) [
      | inl f ↦ subst (λ r. IsSafe id r.0 r.1) (sym f.2) (inl o)
      | inr w ↦ inr (Success-Has t b s _ id w o)
    ]
  ]

  -- A close that returns no error has stored every record of the buffer.
  pub close-Has :
      (t : Moment) (b : Batcher) (s : S) (id : String)
      → IsSafe id b s
      → (close_current_batch rt services t b s).2 ≡ none
      → Has id (close_current_batch rt services t b s).1
  close-Has t b s id (inr h) n = keep_close rt services (Has id) (durable.keeps id) t b s h
  close-Has t b s id (inl o) n = elim (records_cases b.records) [
    | inl e ↦
        let (i, q) = subst (λ rs. Occurs id (map (λ (r : Record). r.id) rs)) e o in
        let impossible : none ≡ some id = q in cc
    | inr m ↦ elim (close_current_batch_cases rt services t b s m) [
      | inl f ↦ let failed : some f.1 ≡ none = sym (ap (λ r. r.2) f.2) ∙ n in cc
      | inr w ↦ Success-Has t b s _ id w o
    ]
  ]

  map-buffered :
      (r : Record) (pos : Position) (b : Batcher)
      → map (λ q. q.id) (buffered r pos b).records ≡ map (λ q. q.id) b.records ++ r.id ∷ []
  map-buffered r pos b = map-append (λ q. q.id) b.records (numbered b r ∷ [])

  add-IsSafe :
      (t : Moment) (r : Record) (pos : Position) (b : Batcher) (s : S) (id : String)
      → IsSafe id (buffered r pos b) s
      → IsSafe id (add_record rt services t r pos b s).0 (add_record rt services t r pos b s).1
  unfolding add_record
  add-IsSafe t r pos b s id h =
      elim (Bool-cases (leb b.cfg.max_events (length (buffered r pos b).records))) [
        | inl f ↦ rw f (close-IsSafe t (buffered r pos b) s id h)
        | inr f ↦ rw f h
      ]

  keep_buffered :
      (r : Record) (pos : Position) (b : Batcher) (s : S) (id : String)
      → IsSafe id b s
      → IsSafe id (buffered r pos b) s
  keep_buffered r pos b s id (inr h) = inr h
  keep_buffered r pos b s id (inl o) = inl (
      subst (Occurs id) (sym (map-buffered r pos b))
        (Occurs-append_left id (map (λ q. q.id) b.records) (r.id ∷ []) o))

  buffered-IsSafe :
      (r : Record) (pos : Position) (b : Batcher) (s : S) → IsSafe r.id (buffered r pos b) s
  buffered-IsSafe r pos b s = inl (
      subst (Occurs r.id) (sym (map-buffered r pos b))
        (Occurs-append_right r.id (map (λ q. q.id) b.records) (r.id ∷ []) (0, refl)))

  pub step-IsSafe :
      (op : Op) (b : Batcher) (s : S) (id : String)
      → IsSafe id b s
      → IsSafe id (step rt services op b s).0 (step rt services op b s).1
  unfolding step on_timer flush close set_bootstrap_mode queue_alert
  step-IsSafe (add t r pos) b s id h = add-IsSafe t r pos b s id (keep_buffered r pos b s id h)
  step-IsSafe (timer t) b s id h = close-IsSafe t (record b { timer_set = false }) s id h
  step-IsSafe (flush_now t) b s id h = close-IsSafe t b s id h
  step-IsSafe (shut t) b s id h = close-IsSafe t (record b { timer_set = false }) s id h
  step-IsSafe (queue a) b s id h = h
  step-IsSafe (bootstrap is table) b s id h = h

  -- The record that is added is in the buffer or in the store.
  pub added_one-IsSafe :
      (t : Moment) (r : Record) (pos : Position) (b : Batcher) (s : S)
      → IsSafe r.id (add_record rt services t r pos b s).0 (add_record rt services t r pos b s).1
  added_one-IsSafe t r pos b s = add-IsSafe t r pos b s r.id (buffered-IsSafe r pos b s)

  run-IsSafe :
      (ops : List Op) (b : Batcher) (s : S) (id : String)
      → IsSafe id b s
      → IsSafe id (run rt services ops b s).0 (run rt services ops b s).1
  unfolding run
  run-IsSafe [] b s id h = h
  run-IsSafe (op ∷ ops) b s id h = run-IsSafe ops _ _ id (step-IsSafe op b s id h)

  -- Over a store that keeps what it has taken without an error, each record that is given to
  -- the batcher in a sequence of its operations, of which any may fail, is at the end in the
  -- buffer or in the store.
  pub run-added :
      (ops : List Op) (b : Batcher) (s : S) (id : String)
      → Occurs id (added ops)
      → IsSafe id (run rt services ops b s).0 (run rt services ops b s).1
  unfolding run step
  run-added [] b s id (i, e) = cc
  run-added (add t r pos ∷ ops) b s id (zero, e) =
      let q : r.id ≡ id = cc in
      run-IsSafe ops _ _ id (
        add-IsSafe t r pos b s id
          (subst (λ u. IsSafe u (buffered r pos b) s) q (buffered-IsSafe r pos b s)))
  run-added (add t r pos ∷ ops) b s id (suc i, e) = run-added ops _ _ id (i, e)
  run-added (timer t ∷ ops) b s id o = run-added ops _ _ id o
  run-added (flush_now t ∷ ops) b s id o = run-added ops _ _ id o
  run-added (shut t ∷ ops) b s id o = run-added ops _ _ id o
  run-added (queue a ∷ ops) b s id o = run-added ops _ _ id o
  run-added (bootstrap is table ∷ ops) b s id o = run-added ops _ _ id o
