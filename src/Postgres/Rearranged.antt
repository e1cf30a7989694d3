-- ===== src/Postgres/Rearranged.antt =====
-- The order in which PostgreSQL visits the rows of a table, for the queries of internal/store/store.go.
use mathlib.Core.List.{Memᴰ}
use mathlib.Core.List.Permᴰ
use mathlib.Core.List.{Permᴰ}
use logs_tracker.Prelude.{
  String, ◌≡◌, ap, sym, ◌∙◌, List, [], ◌∷◌, map, none, str_eq, eq_iff, true, subst, Bool-cases, inl,
  inr,
}
use logs_tracker.Merkle.Payload.{Runtime}
use logs_tracker.Store.{
  Batch, WormIndexEntry, MemoryStore, get_batch, get_record, get_worm_index,
  get_records_by_batch_id, get_latest_checkpoint, get_record_for_verification, found, checkpoint_of,
}
use logs_tracker.Store.Order.{
  HasOneEach, HasOnePlace, get-Permᴰ, get_records_by_batch_id-Permᴰ, select-IsDistinct,
  get_record_for_verification-Permᴰ,
}
use logs_tracker.Store.Latest.{HasOneTime, latest-Permᴰ}
use logs_tracker.Postgres.{RecordRow, Tables, find_row, batch_key, record_key, entry_key}
use logs_tracker.Postgres.Queries.{scanned_record}
use logs_tracker.Postgres.Keys.{HasUnique}
use logs_tracker.Postgres.Constraints.{IsConsistent}
use logs_tracker.Postgres.View.{view}

-- The same rows, in any order.
pub record IsRearranged (t u : Tables) : Type 0 where
  pub batches : Permᴰ t.audit_batches u.audit_batches
  pub records : Permᴰ t.audit_records u.audit_records
  pub entries : Permᴰ t.audit_worm_index u.audit_worm_index

-- What decides an order of the answers: a batch has one record of an index, and no two batches were
-- closed at one time.
pub record HasOrder (m : MemoryStore) : Type 0 where
  pub places : HasOnePlace m.records
  pub times : HasOneTime m.batches

-- A row of a key is found.
mem-found :
    {A : Type 0} (key : A → String) {V : Type 0} (f : A → V) (rows : List A) (x : String × V)
    → Memᴰ x (map (λ a. (key a, f a)) rows)
    → find_row key x.0 rows ≡ none
    → ⊥
unfolding find_row
mem-found key f [] x h e = elim h [ ]
mem-found key f (a ∷ rows) x (Memᴰ.head p) e =
    let t : str_eq (key a) x.0 ≡ true = (eq_iff (key a) x.0).1 (ap (λ y. y.0) (sym p)) in
    cc (rw (find_row, t) at e)
mem-found key f (a ∷ rows) x (Memᴰ.tail h) e = elim (Bool-cases (str_eq (key a) x.0)) [
  | inl t ↦ cc (rw (find_row, t) at e)
  | inr n ↦ mem-found key f rows x h (rw (find_row, n) at e)
]

one_each :
    {A : Type 0} (key : A → String) {V : Type 0} (f : A → V) (rows : List A)
    → HasUnique key rows
    → HasOneEach (map (λ a. (key a, f a)) rows)
one_each key f [] u x y h k e = elim h [ ]
one_each key f (a ∷ rows) u x y (Memᴰ.head p) (Memᴰ.head q) e = p ∙ sym q
one_each key f (a ∷ rows) u x y (Memᴰ.head p) (Memᴰ.tail k) e = absurd (
    mem-found key f rows y k
      (subst (λ i. find_row key i rows ≡ none) (ap (λ z. z.0) (sym p) ∙ e) u.0))
one_each key f (a ∷ rows) u x y (Memᴰ.tail h) (Memᴰ.head q) e = absurd (
    mem-found key f rows x h
      (subst (λ i. find_row key i rows ≡ none) (ap (λ z. z.0) (sym q) ∙ sym e) u.0))
one_each key f (a ∷ rows) u x y (Memᴰ.tail h) (Memᴰ.tail k) e = one_each key f rows u.1 x y h k e

view-batches : {t u : Tables} → IsRearranged t u → Permᴰ (view t).batches (view u).batches
view-batches r = Permᴰ.map (λ (b : Batch). (b.id, b)) r.batches

view-records : {t u : Tables} → IsRearranged t u → Permᴰ (view t).records (view u).records
view-records r = Permᴰ.map (λ (q : RecordRow). (q.id, scanned_record q)) r.records

view-entries : {t u : Tables} → IsRearranged t u → Permᴰ (view t).worm_index (view u).worm_index
view-entries r = Permᴰ.map (λ (e : WormIndexEntry). (e.batch_id, e)) r.entries

module _ (t u : Tables) (r : IsRearranged t u) (h : IsConsistent t) where
  one_batch : HasOneEach (view t).batches
  one_batch = one_each batch_key (λ b. b) t.audit_batches h.batch_keys

  one_record : HasOneEach (view t).records
  one_record = one_each record_key scanned_record t.audit_records h.record_keys

  one_entry : HasOneEach (view t).worm_index
  one_entry = one_each entry_key (λ e. e) t.audit_worm_index h.entry_keys

  pub get_batch-IsRearranged : (id : String) → get_batch id (view t) ≡ get_batch id (view u)
  unfolding get_batch
  get_batch-IsRearranged id = ap found (get-Permᴰ id (view-batches r) one_batch)

  pub get_record-IsRearranged : (id : String) → get_record id (view t) ≡ get_record id (view u)
  unfolding get_record
  get_record-IsRearranged id = ap found (get-Permᴰ id (view-records r) one_record)

  pub get_worm_index-IsRearranged :
      (id : String) → get_worm_index id (view t) ≡ get_worm_index id (view u)
  unfolding get_worm_index
  get_worm_index-IsRearranged id = ap found (get-Permᴰ id (view-entries r) one_entry)

  module _ (ordered : HasOrder (view t)) where
    pub get_records-IsRearranged :
        (id : String) → get_records_by_batch_id id (view t) ≡ get_records_by_batch_id id (view u)
    get_records-IsRearranged id =
        get_records_by_batch_id-Permᴰ id (view t) (view u) (view-records r)
          (select-IsDistinct id (view t).records ordered.places)

    pub get_latest_checkpoint-IsRearranged :
        get_latest_checkpoint (view t) ≡ get_latest_checkpoint (view u)
    unfolding get_latest_checkpoint
    get_latest_checkpoint-IsRearranged =
        ap checkpoint_of (latest-Permᴰ none (view-batches r) ordered.times)

    pub get_record_for_verification-IsRearranged :
        (rt : Runtime) (id : String)
        → get_record_for_verification rt id (view t) ≡ get_record_for_verification rt id (view u)
    get_record_for_verification-IsRearranged rt id =
        get_record_for_verification-Permᴰ rt id (view t) (view u) (view-records r) (view-batches r)
          one_record one_batch ordered.places
