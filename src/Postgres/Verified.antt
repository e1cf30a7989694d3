-- ===== src/Postgres/Verified.antt =====
-- From a batch that internal/batch/batcher.go closes into PostgresStore to the verifier of
-- internal/merkle/verifier.go that reads it back.
use mathlib.Core.Option
use mathlib.Core.Option.{Option}
use logs_tracker.Prelude.{
  ℕ, suc, String, ◌≡◌, ◌≢◌, refl, ap, sym, ◌∙◌, subst, Bool, true, Bool-cases, inl, inr, none, some,
  List, [], ◌∷◌, All, map, get_elem?, str_eq, eq_iff, zero,
}
use logs_tracker.Errors.{GoError, Result, ok, err, failure, ◌>>=◌}
use logs_tracker.Merkle.{Bytes, hash_leaf}
use logs_tracker.Merkle.Payload.{Runtime, normalize, compute_record_leaf_hash}
use logs_tracker.Merkle.Verifier.{verify_record}
use logs_tracker.Store
use logs_tracker.Store.{
  Batch, Record, MemoryStore, select, in_batch, sort_by_index, get_records_by_batch_id, leaf_hashes,
  payload_of,
}
use logs_tracker.Store.Batches.{IsFresh, IsSequence}
use logs_tracker.Batch.{
  CheckpointObject, Batcher, Services, Moment, Closed, batch_row, close_current_batch,
}
use logs_tracker.Batch.Closing.{Success, close_current_batch_cases}
use logs_tracker.Batch.Kept.{dispatch_all-silent}
use logs_tracker.Batch.Numbering.{IsNumbered}
use logs_tracker.Batch.Verified.{created-valid}
use logs_tracker.Postgres.{
  RecordRow, Tables, Columns, Faults, record_key, find_batch, stored_batch, stored_record,
  insert_records, create_batch,
}
use logs_tracker.Postgres.Queries
use logs_tracker.Postgres.Queries.{scanned_record}
use logs_tracker.Postgres.Atomic.{
  create_batch_attempt, insert_batch-ok, insert_record-ok, insert_records-cons,
}
use logs_tracker.Postgres.Constraints.{HasBatch, IsConsistent}
use logs_tracker.Postgres.View.{view, keyed_records, get-keyed, kept_record, keyed-insert_record}
use logs_tracker.Postgres.Agreement.{written-view}
use logs_tracker.Postgres.Answers.{answered, get_record_for_verification-view}
use logs_tracker.Postgres.Session.{Session, in_postgres}

get_elem?-map {ℓ κ} :
    {A : Type ℓ} {B : Type κ} (f : A → B) (i : ℕ) (xs : List A)
    → get_elem? (map f xs) i ≡ Option.map f (get_elem? xs i)
get_elem?-map f i [] = refl
get_elem?-map f zero (x ∷ xs) = refl
get_elem?-map f (suc i) (x ∷ xs) = get_elem?-map f i xs

-- A batch that is not in the tables has no records there.
select-absent :
    (id : String) (batches : List Batch) (rows : List RecordRow)
    → find_batch id batches ≡ none
    → All (λ (r : RecordRow). HasBatch batches r.batch_id) rows
    → select (in_batch id) (keyed_records rows) ≡ []
unfolding select in_batch scanned_record
select-absent id batches [] absent h = refl
select-absent id batches (r ∷ rows) absent h = elim (Bool-cases (str_eq r.batch_id id)) [
  | inr f ↦ rw f (select-absent id batches rows absent h.1)
  | inl t ↦
      let same : r.batch_id ≡ id = (eq_iff r.batch_id id).0 t in
      let (b, there) = h.0 in
      let found : some b ≡ none = sym there ∙ ap (λ k. find_batch k batches) same ∙ absent in cc
]

module _ (columns : Columns) where
  -- Records that are inserted have new identifiers.
  insert_records-IsFresh :
      (f : Faults) (i : ℕ) (rs : List Record) (t u : Tables)
      → insert_records columns f i rs t ≡ ok u
      → IsFresh (map (kept_record columns) rs) (keyed_records t.audit_records)
  unfolding insert_records scanned_record stored_record
  insert_records-IsFresh f i [] t u e = tt
  insert_records-IsFresh f i (r ∷ rs) t u e =
      let (v, one, more) = insert_records-cons columns f i r rs t u e in
      let (absent, parent, after) = insert_record-ok columns r t v one in
      let later = insert_records-IsFresh f (suc i) rs v u more in
      let put_first = keyed-insert_record columns r t.audit_records absent in
      (
        get-keyed record_key scanned_record r.id t.audit_records
            ∙ ap (Option.map scanned_record) absent,
        subst (IsFresh (map (kept_record columns) rs))
            (ap (λ (w : Tables). keyed_records w.audit_records) (sym after) ∙ put_first) later,
      )

  kept-IsSequence :
      (id : String) (n : ℕ) (rs : List Record)
      → IsSequence id n rs
      → IsSequence id n (map (kept_record columns) rs)
  unfolding scanned_record stored_record
  kept-IsSequence id n [] h = tt
  kept-IsSequence id n (r ∷ rs) (b, at, h) = (b, at, kept-IsSequence id (suc n) rs h)

  module _ (rt : Runtime) where
    -- The canonical JSON of a record as it is read back is that of the record: what the columns
    -- change in it, such as the spaces of a JSONB value, json.Marshal removes.
    abbrev pub IsSameJson : Record → Type 0
    IsSameJson r =
        rt.marshal_payload (normalize rt (payload_of rt (kept_record columns r)))
        ≡ rt.marshal_payload (normalize rt (payload_of rt r))

    kept-leaf_hash :
        (r : Record)
        → IsSameJson r
        → compute_record_leaf_hash rt (payload_of rt (kept_record columns r))
          ≡ compute_record_leaf_hash rt (payload_of rt r)
    unfolding compute_record_leaf_hash
    kept-leaf_hash r same =
        ap
          (λ (o : Option Bytes). elim o as (λ x. Result Bytes) [
            | some d ↦ ok (hash_leaf rt.sha256 d)
            | none ↦ err (failure "failed to marshal canonical payload")
          ])
          same

    kept-leaf_hashes :
        (rs : List Record)
        → All IsSameJson rs
        → leaf_hashes rt (map (kept_record columns) rs) ≡ leaf_hashes rt rs
    unfolding leaf_hashes
    kept-leaf_hashes [] h = refl
    kept-leaf_hashes (r ∷ rs) h =
        λ i. do d ← kept-leaf_hash r h.0 i; ds ← kept-leaf_hashes rs h.1 i; ok (d ∷ ds)

  module _ (rt : Runtime) (sign : Bytes → Result (Bytes × String))
      (marshal : CheckpointObject → Option Bytes) (faults : ℕ → Faults)
      (write : ℕ → String → Bytes → Option GoError) where
    abbrev services : Services Session
    services = in_postgres columns sign marshal faults write

    pub Success-tables :
        (t : Moment) (b : Batcher) (s : Session) (result : Closed rt services)
        (w : Success rt services t b s result)
        → result.1.tables
          ≡ (create_batch columns
              (faults s.calls)
              (batch_row t b w.tree.root w.signature w.version)
              b.records
              s.tables).0
    Success-tables t b s result w =
        ap (λ r. r.1.tables) w.outcome
        ∙ ap (λ (u : Session). u.tables)
            (dispatch_all-silent rt services (λ a u. refl) b.alerts_queue w.anchored)
        ∙ sym (ap (λ r. r.0.tables) w.anchors)
        ∙ sym (ap (λ r. r.0.tables) w.stores)

    module _ (verify : Bytes → Bytes → String → Result Bool)
        (accepts : (digest signature : Bytes) (version : String)
          → sign digest ≡ ok (signature, version)
          → verify digest signature version ≡ ok true) where
      abbrev IsValid : ℕ → String → Tables → Type 0
      IsValid now id t =
          (verify_record rt verify now id
            (Queries.get_record_for_verification rt none none answered id t)).0.valid
          ≡ true

      Success-IsValid :
          (t : Moment) (b : Batcher) (s : Session) (result : Closed rt services) (now i : ℕ)
          (r : Record)
          → Success rt services t b s result
          → IsConsistent s.tables
          → IsNumbered b
          → All (IsSameJson rt) b.records
          → get_elem? b.records i ≡ some r
          → IsValid now r.id result.1.tables
      unfolding batch_row Store.get_records_by_batch_id stored_batch stored_record scanned_record
      Success-IsValid t b s result now i r w consistent numbered exact at =
          let row = batch_row t b w.tree.root w.signature w.version in
          let kept = map (kept_record columns) b.records in
          elim (create_batch_attempt columns (faults s.calls) row b.records s.tables) [
            | inl (e, same) ↦
                let failed : some e ≡ none = sym (ap (λ x. x.1) same) ∙ ap (λ x. x.1) w.stores in cc
            | inr (t', u, first, rest, inr (e, lost, same)) ↦
                let failed = sym (ap (λ x. x.1) same) ∙ ap (λ x. x.1) w.stores in cc
            | inr (t', u, first, rest, inl same) ↦
                let (absent, fits, after) = insert_batch-ok columns row s.tables t' first in
                let seen =
                  written-view columns (faults s.calls) row b.records s.tables t' u first rest in
                let fresh =
                  subst (λ (v : Tables). IsFresh kept (keyed_records v.audit_records)) (sym after)
                    (insert_records-IsFresh (faults s.calls) 0 b.records t' u rest) in
                let empty = ap sort_by_index (
                  select-absent b.current_batch_id s.tables.audit_batches s.tables.audit_records
                    absent consistent.record_batches) in
                let valid =
                  created-valid rt verify (stored_batch columns row) kept (view s.tables) w.leaves
                    w.tree now i (kept_record columns r) refl
                    (accepts w.tree.root w.signature w.version w.signs)
                    (kept-leaf_hashes rt b.records exact ∙ w.hashes) w.built
                    (kept-IsSequence b.current_batch_id 0 b.records numbered) fresh empty
                    (get_elem?-map (kept_record columns) i b.records ∙ ap (Option.map _) at) in
                subst (IsValid now r.id) (sym (Success-tables t b s result w ∙ ap (λ x. x.0) same))
                  (subst (λ x. (verify_record rt verify now r.id x).0.valid ≡ true)
                    (sym (
                      get_record_for_verification-view rt r.id u
                      ∙ ap (Store.get_record_for_verification rt r.id) seen))
                    valid)
          ]

      -- If closing a batch over PostgresStore returns no error, the tables keep their keys, the
      -- records of the batch are numbered, and the canonical JSON of each record as the columns keep
      -- it is that of the record, then each record of the batch, read back from the tables by queries
      -- that do not fail, is reported as valid by the verifier, whose signer accepts what the
      -- batcher's signer signs.
      pub close-valid :
          (t : Moment) (b : Batcher) (s : Session) (now i : ℕ) (r : Record)
          → (close_current_batch rt services t b s).2 ≡ none
          → IsConsistent s.tables
          → IsNumbered b
          → All (IsSameJson rt) b.records
          → get_elem? b.records i ≡ some r
          → (verify_record rt verify now r.id (
              Queries.get_record_for_verification rt none none answered r.id
                (close_current_batch rt services t b s).1.tables)).0.valid
            ≡ true
      close-valid t b s now i r n consistent numbered exact at =
          let some_records : b.records ≢ [] = λ e.
            (let q : get_elem? [] i ≡ some r = subst (λ u. get_elem? u i ≡ some r) e at in cc) in
          elim (close_current_batch_cases rt services t b s some_records) [
            | inl f ↦ let failed : some f.1 ≡ none = sym (ap (λ u. u.2) f.2) ∙ n in cc
            | inr w ↦ Success-IsValid t b s _ now i r w consistent numbered exact at
          ]
