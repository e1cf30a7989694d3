-- ===== src/Postgres/Session.antt =====
-- The batcher of internal/batch/batcher.go over PostgresStore of internal/store/store.go, whose
-- calls may fail at any time, each in its own way.
use logs_tracker.Prelude.{
  ℕ, suc, String, ◌≡◌, inl, inr, refl, ap, sym, ◌∙◌, subst, Option, none, some, List, [], ◌∷◌, ◌++◌,
  map, map-append, Occurs, Occurs-append_left, Occurs-append_right,
}
use logs_tracker.Errors.{GoError, Result}
use logs_tracker.Merkle.{Bytes}
use logs_tracker.Store.{Batch, Record}
use logs_tracker.Batch.{CheckpointObject, Services}
use logs_tracker.Batch.Conservation.{IsDurable}
use logs_tracker.Postgres.{Tables, Columns, Faults, record_key, stored_record, create_batch}
use logs_tracker.Postgres.Atomic.{extended, create_batch_lem}

-- The tables, and how many calls were made.
pub record Session : Type 0 where
  pub tables : Tables
  pub calls : ℕ

abbrev pub HasRow : String → Session → Type 0
HasRow id s = Occurs id (map record_key s.tables.audit_records)

module _ (columns : Columns) (sign : Bytes → Result (Bytes × String))
    (marshal : CheckpointObject → Option Bytes) (faults : ℕ → Faults)
    (write : ℕ → String → Bytes → Option GoError) where
  -- Nobody listens to alerts and closed batches.
  abbrev pub in_postgres : Services Session
  in_postgres = record {
    sign = sign;
    create_batch = λ row rs s.
        let (t, e) = create_batch columns (faults s.calls) row rs s.tables in
        (record { tables = t; calls = suc s.calls }, e);
    marshal_checkpoint = marshal;
    put_checkpoint = λ id content s. (record s { calls = suc s.calls }, write s.calls id content);
    dispatch = λ a s. s;
    batch_closed = λ row s. s;
  }

  stored-ids :
      (rs : List Record)
      → map record_key (map (stored_record columns) rs) ≡ map (λ (r : Record). r.id) rs
  unfolding stored_record
  stored-ids [] = refl
  stored-ids (r ∷ rs) = ap (◌∷◌ r.id) (stored-ids rs)

  rows-extended :
      (b : Batch) (rs : List Record) (t : Tables)
      → map record_key (extended columns b rs t).audit_records
        ≡ map record_key t.audit_records ++ map (λ (r : Record). r.id) rs
  rows-extended b rs t =
      map-append record_key t.audit_records (map (stored_record columns) rs)
      ∙ ap (λ ids. map record_key t.audit_records ++ ids) (stored-ids rs)

  extended-keeps :
      (id : String) (b : Batch) (rs : List Record) (t : Tables)
      → Occurs id (map record_key t.audit_records)
      → Occurs id (map record_key (extended columns b rs t).audit_records)
  extended-keeps id b rs t o =
      subst (Occurs id) (sym (rows-extended b rs t)) (Occurs-append_left id _ _ o)

  create_batch-keeps :
      (id : String) (f : Faults) (b : Batch) (rs : List Record) (t : Tables)
      → Occurs id (map record_key t.audit_records)
      → Occurs id (map record_key (create_batch columns f b rs t).0.audit_records)
  create_batch-keeps id f b rs t o = elim (create_batch_lem columns f b rs t) [
    | inl (e, same) ↦ subst (λ r. Occurs id (map record_key r.0.audit_records)) (sym same) o
    | inr (inl same) ↦
        subst (λ r. Occurs id (map record_key r.0.audit_records)) (sym same)
          (extended-keeps id b rs t o)
    | inr (inr (e, lost, same)) ↦
        subst (λ r. Occurs id (map record_key r.0.audit_records)) (sym same)
          (extended-keeps id b rs t o)
  ]

  create_batch-Occurs :
      (id : String) (f : Faults) (b : Batch) (rs : List Record) (t : Tables)
      → (create_batch columns f b rs t).1 ≡ none
      → Occurs id (map (λ (r : Record). r.id) rs)
      → Occurs id (map record_key (create_batch columns f b rs t).0.audit_records)
  create_batch-Occurs id f b rs t n o = elim (create_batch_lem columns f b rs t) [
    | inl (e, same) ↦ let failed : some e ≡ none = sym (ap (λ r. r.1) same) ∙ n in cc
    | inr (inr (e, lost, same)) ↦ let failed = sym (ap (λ r. r.1) same) ∙ n in cc
    | inr (inl same) ↦
        subst (λ r. Occurs id (map record_key r.0.audit_records)) (sym same)
          (subst (Occurs id) (sym (rows-extended b rs t)) (Occurs-append_right id _ _ o))
  ]

  -- PostgresStore keeps what it has taken without an error.
  pub in_postgres-IsDurable : IsDurable in_postgres HasRow
  in_postgres-IsDurable = record {
    created = λ row rs s id n o. create_batch-Occurs id (faults s.calls) row rs s.tables n o;
    keeps = λ id. record {
      by_create = λ row rs s h. create_batch-keeps id (faults s.calls) row rs s.tables h;
      by_put = λ batch_id content s h. h;
      by_dispatch = λ a s h. h;
      by_closed = λ row s h. h;
    };
  }
