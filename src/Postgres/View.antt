-- ===== src/Postgres/View.antt =====
-- The tables of PostgresStore read as a MemoryStore, both of internal/store/store.go.
use mathlib.Core.Option
use logs_tracker.Prelude.{
  ℕ, suc, String, ◌≡◌, inl, inr, refl, ap, ap₂, sym, ◌∙◌, subst, Bool-cases, Option, none, some,
  List, [], ◌∷◌, ◌++◌, map, map-append, str_eq, eq_iff, if◌then◌else◌,
}
use logs_tracker.Prelude.Dict.{Dict, get, put, put-absent}
use logs_tracker.Errors.{ok, ok-injective}
use logs_tracker.Store.{
  Batch, Record, WormIndexEntry, MemoryStore, put_records, with_status, drop_batch, in_batch,
  select,
}
use logs_tracker.Postgres.{
  RecordRow, Tables, find_row, batch_key, record_key, Columns, Faults, find_batch, find_record,
  stored_batch, stored_record, insert_records,
}
use logs_tracker.Postgres.Changes.{update_row, rows_affected, delete_rows, upsert}
use logs_tracker.Postgres.Queries.{scanned_record, rows_where, batch_is}
use logs_tracker.Postgres.Keys.{HasUnique}
use logs_tracker.Postgres.Atomic.{insert_record-ok, insert_records-cons}

abbrev pub keyed_batches : List Batch → Dict Batch
keyed_batches rows = map (λ (b : Batch). (b.id, b)) rows

abbrev pub keyed_records : List RecordRow → Dict Record
keyed_records rows = map (λ (r : RecordRow). (r.id, scanned_record r)) rows

abbrev pub keyed_entries : List WormIndexEntry → Dict WormIndexEntry
keyed_entries rows = map (λ (e : WormIndexEntry). (e.batch_id, e)) rows

abbrev pub view : Tables → MemoryStore
view t = record {
  batches = keyed_batches t.audit_batches;
  records = keyed_records t.audit_records;
  worm_index = keyed_entries t.audit_worm_index;
}

pub get-keyed {ℓ κ} :
    {A : Type ℓ} {B : Type κ} (key : A → String) (f : A → B) (id : String) (rows : List A)
    → get id (map (λ a. (key a, f a)) rows) ≡ Option.map f (find_row key id rows)
unfolding get find_row
get-keyed key f id [] = refl
get-keyed key f id (a ∷ rows) = elim (Bool-cases (str_eq (key a) id)) [
  | inl t ↦ rw t refl
  | inr n ↦ rw n (get-keyed key f id rows)
]

-- An update finds no row, or the one row of the key, and then it replaces its value.
pub rows_affected-absent :
    (id : String) (rows : List Batch) → find_batch id rows ≡ none → rows_affected id rows ≡ 0
unfolding find_row rows_affected
rows_affected-absent id [] e = refl
rows_affected-absent id (b ∷ rows) e = elim (Bool-cases (str_eq b.id id)) [
  | inl t ↦ cc (rw (find_row, t) at e)
  | inr f ↦ rw (rows_affected, f) (rows_affected-absent id rows (rw (find_row, f) at e))
]

pub rows_affected-found :
    (id : String) (b : Batch) (rows : List Batch)
    → find_batch id rows ≡ some b
    → (n : ℕ) × (rows_affected id rows ≡ suc n)
unfolding find_row rows_affected
rows_affected-found id b [] e = cc
rows_affected-found id b (c ∷ rows) e = elim (Bool-cases (str_eq c.id id)) [
  | inl t ↦ (rows_affected id rows, rw (rows_affected, t) refl)
  | inr f ↦
      let (n, h) = rows_affected-found id b rows (rw (find_row, f) at e) in
      (n, rw (rows_affected, f) h)
]

update_absent :
    (id status : String) (key : Option String) (rows : List Batch)
    → find_batch id rows ≡ none
    → map (update_row id status key) rows ≡ rows
unfolding find_row update_row
update_absent id status key [] e = refl
update_absent id status key (b ∷ rows) e = elim (Bool-cases (str_eq b.id id)) [
  | inl t ↦ cc (rw (find_row, t) at e)
  | inr f ↦ rw f (ap (◌∷◌ b) (update_absent id status key rows (rw (find_row, f) at e)))
]

pub with_status-id :
    (status : String) (key : Option String) (b : Batch) → (with_status status key b).id ≡ b.id
unfolding with_status
with_status-id status none b = refl
with_status-id status (some k) b = refl

pub keyed-update :
    (id status : String) (key : Option String) (b : Batch) (rows : List Batch)
    → HasUnique batch_key rows
    → find_batch id rows ≡ some b
    → keyed_batches (map (update_row id status key) rows)
      ≡ put id (with_status status key b) (keyed_batches rows)
unfolding find_row update_row put
keyed-update id status key b [] u e = cc
keyed-update id status key b (c ∷ rows) u e = elim (Bool-cases (str_eq c.id id)) [
  | inl t ↦
      let chosen : some c ≡ some b = (rw (find_row, t) at e) in
      let c_is : c ≡ b = cc in
      let id_is : c.id ≡ id = (eq_iff c.id id).0 t in
      let alone : find_batch id rows ≡ none = subst (λ k. find_batch k rows ≡ none) id_is u.0 in
      rw t (
        ap₂ (◌∷◌)
          (ap₂ (λ k v. (k, v)) (with_status-id status key c ∙ id_is)
            (ap (with_status status key) c_is))
          (ap keyed_batches (update_absent id status key rows alone)))
  | inr f ↦
      rw f (ap (◌∷◌ (c.id, c)) (keyed-update id status key b rows u.1 (rw (find_row, f) at e)))
]

pub select-keyed_records :
    (id : String) (rows : List RecordRow)
    → select (in_batch id) (keyed_records rows) ≡ rows_where (batch_is id) (map scanned_record rows)
unfolding select in_batch rows_where scanned_record
select-keyed_records id [] = refl
select-keyed_records id (r ∷ rows) =
    ap (λ rs. if str_eq r.batch_id id then scanned_record r ∷ rs else rs)
      (select-keyed_records id rows)

pub keyed-delete_rows :
    (id : String) (rows : List RecordRow)
    → keyed_records (delete_rows id rows) ≡ drop_batch id (keyed_records rows)
unfolding delete_rows drop_batch in_batch scanned_record
keyed-delete_rows id [] = refl
keyed-delete_rows id (r ∷ rows) = elim (Bool-cases (str_eq r.batch_id id)) [
  | inl t ↦ rw t (keyed-delete_rows id rows)
  | inr f ↦ rw f (ap (◌∷◌ (r.id, scanned_record r)) (keyed-delete_rows id rows))
]

pub keyed-upsert :
    (e : WormIndexEntry) (rows : List WormIndexEntry)
    → keyed_entries (upsert e rows) ≡ put e.batch_id e (keyed_entries rows)
unfolding upsert put
keyed-upsert e [] = refl
keyed-upsert e (d ∷ rows) = elim (Bool-cases (str_eq d.batch_id e.batch_id)) [
  | inl t ↦ rw t refl
  | inr f ↦ rw f (ap (◌∷◌ (d.batch_id, d)) (keyed-upsert e rows))
]

module _ (columns : Columns) where
  -- A record as it is read back.
  abbrev pub kept_record : Record → Record
  kept_record r = scanned_record (stored_record columns r)

  pub keyed-insert_batch :
      (b : Batch) (rows : List Batch)
      → find_batch b.id rows ≡ none
      → keyed_batches (rows ++ stored_batch columns b ∷ [])
        ≡ put b.id (stored_batch columns b) (keyed_batches rows)
  unfolding stored_batch
  keyed-insert_batch b rows absent =
      map-append (λ (c : Batch). (c.id, c)) rows (stored_batch columns b ∷ [])
      ∙ sym (
          put-absent b.id (stored_batch columns b) (keyed_batches rows)
            (get-keyed batch_key (λ c. c) b.id rows ∙ ap (Option.map (λ c. c)) absent))

  pub keyed-insert_record :
      (r : Record) (rows : List RecordRow)
      → find_record r.id rows ≡ none
      → keyed_records (rows ++ stored_record columns r ∷ [])
        ≡ put r.id (kept_record r) (keyed_records rows)
  unfolding stored_record
  keyed-insert_record r rows absent =
      map-append (λ (q : RecordRow). (q.id, scanned_record q)) rows (stored_record columns r ∷ [])
      ∙ sym (
          put-absent r.id (kept_record r) (keyed_records rows)
            (get-keyed record_key scanned_record r.id rows ∙ ap (Option.map scanned_record) absent))

  pub keyed-insert_records :
      (f : Faults) (i : ℕ) (rs : List Record) (t t' : Tables)
      → insert_records columns f i rs t ≡ ok t'
      → keyed_records t'.audit_records
        ≡ put_records (map kept_record rs) (keyed_records t.audit_records)
  unfolding insert_records put_records stored_record scanned_record
  keyed-insert_records f i [] t t' e =
      ap (λ (u : Tables). keyed_records u.audit_records) (sym (ok-injective e))
  keyed-insert_records f i (r ∷ rs) t t' e =
      let (u, one, more) = insert_records-cons columns f i r rs t t' e in
      let (absent, parent, first) = insert_record-ok columns r t u one in
      keyed-insert_records f (suc i) rs u t' more
      ∙ ap (λ (v : Tables). put_records (map kept_record rs) (keyed_records v.audit_records))
          (sym first)
      ∙ ap (put_records (map kept_record rs)) (keyed-insert_record r t.audit_records absent)
