-- ===== src/Batch/InMemory.antt =====
-- The batcher of internal/batch/batcher.go over the MemoryStore of internal/store/store.go.
use logs_tracker.Prelude.{
  String, ◌≡◌, Bool-cases, Option, none, some, List, [], ◌∷◌, zero, suc, map, Occurs, arith, str_eq,
  eq_iff, inl, inr,
}
use logs_tracker.Prelude.Dict.{Dict, get, put, get-put}
use logs_tracker.Errors.{GoError, Result}
use logs_tracker.Merkle.{Bytes}
use logs_tracker.Store.{Record, MemoryStore, put_records, create_batch}
use logs_tracker.Batch.{CheckpointObject, Services}
use logs_tracker.Batch.Conservation.{IsDurable}

abbrev pub HasRecord : String → Dict Record → Type 0
HasRecord id m = (r : Record) × (get id m ≡ some r)

HasRecord-put :
    (id : String) (q : Record) (m : Dict Record) → HasRecord id m → HasRecord id (put q.id q m)
HasRecord-put id q m (r, e) = elim (Bool-cases (str_eq q.id id)) [
  | inl t ↦ (q, ground (arith, get-put id q.id q m))
  | inr f ↦ (r, ground (arith, get-put id q.id q m))
]

put_records-keeps :
    (id : String) (rs : List Record) (m : Dict Record)
    → HasRecord id m
    → HasRecord id (put_records rs m)
unfolding put_records
put_records-keeps id [] m h = h
put_records-keeps id (q ∷ rs) m h = put_records-keeps id rs (put q.id q m) (HasRecord-put id q m h)

put_records-Occurs :
    (id : String) (rs : List Record) (m : Dict Record)
    → Occurs id (map (λ (r : Record). r.id) rs)
    → HasRecord id (put_records rs m)
unfolding put_records
put_records-Occurs id [] m (i, e) = cc
put_records-Occurs id (q ∷ rs) m (zero, e) =
    let same : q.id ≡ id = cc in
    put_records-keeps id rs (put q.id q m) (q, ground (arith, get-put id q.id q m, eq_iff q.id id))
put_records-Occurs id (q ∷ rs) m (suc i, e) = put_records-Occurs id rs (put q.id q m) (i, e)

module _ (sign : Bytes → Result (Bytes × String)) (marshal : CheckpointObject → Option Bytes)
    (write : String → Bytes → Option GoError) where
  -- The store is the in-memory one; nobody listens to alerts and closed batches.
  abbrev pub in_memory : Services MemoryStore
  in_memory = record {
    sign = sign;
    create_batch = λ row rs s. (create_batch row rs s, none);
    marshal_checkpoint = marshal;
    put_checkpoint = λ id content s. (s, write id content);
    dispatch = λ a s. s;
    batch_closed = λ row s. s;
  }

  pub in_memory-IsDurable : IsDurable in_memory (λ id s. HasRecord id s.records)
  unfolding create_batch
  in_memory-IsDurable = record {
    created = λ row rs s id e o. put_records-Occurs id rs s.records o;
    keeps = λ id. record {
      by_create = λ row rs s h. put_records-keeps id rs s.records h;
      by_put = λ batch_id content s h. h;
      by_dispatch = λ a s h. h;
      by_closed = λ row s h. h;
    };
  }
