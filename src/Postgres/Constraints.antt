-- ===== src/Postgres/Constraints.antt =====
-- The keys that migrations/postgres declares, over the changes of the tables in
-- internal/store/store.go.
use mathlib.Core.Option
use logs_tracker.Prelude.{
  ℕ, zero, suc, String, ◌≡◌, inl, inr, refl, ap, ◌∙◌, subst, false, Bool-cases, Option, none, some,
  List, [], ◌∷◌, ◌++◌, map, All, str_eq, arith, eq_iff,
}
use logs_tracker.Store.{Batch, WormIndexEntry}
use logs_tracker.Postgres.{
  RecordRow, Tables, find_row, batch_key, record_key, entry_key, find_batch, find_record,
  find_entry,
}
use logs_tracker.Postgres.Changes.{update_row, update_done, delete_rows, upsert}
use logs_tracker.Postgres.Keys.{HasUnique, HasUnique-map, find_row-snoc, find_row-map}
use logs_tracker.Postgres.View.{with_status-id}

-- Foreign keys: the batch of a row exists.
abbrev pub HasBatch : List Batch → String → Type 0
HasBatch rows id = (b : Batch) × (find_batch id rows ≡ some b)

pub record IsConsistent (t : Tables) : Type 0 where
  pub batch_keys : HasUnique batch_key t.audit_batches
  pub record_keys : HasUnique record_key t.audit_records
  pub entry_keys : HasUnique entry_key t.audit_worm_index
  pub record_batches : All (λ (r : RecordRow). HasBatch t.audit_batches r.batch_id) t.audit_records
  pub entry_batches :
      All (λ (e : WormIndexEntry). HasBatch t.audit_batches e.batch_id) t.audit_worm_index

pub All-implies {ℓ κ μ} :
    {A : Type ℓ} (P : A → Type κ) (Q : A → Type μ) (xs : List A)
    → ((a : A) → P a → Q a)
    → All P xs
    → All Q xs
All-implies P Q [] f h = tt
All-implies P Q (x ∷ xs) f h = (f x h.0, All-implies P Q xs f h.1)

pub HasBatch-snoc :
    (b : Batch) (rows : List Batch) (id : String) → HasBatch rows id → HasBatch (rows ++ b ∷ []) id
HasBatch-snoc b rows id (c, e) = (c, find_row-snoc batch_key id b c rows e)

HasBatch-map :
    (f : Batch → Batch) (same : (b : Batch) → (f b).id ≡ b.id) (rows : List Batch) (id : String)
    → HasBatch rows id
    → HasBatch (map f rows) id
HasBatch-map f same rows id (b, e) =
    (f b, find_row-map batch_key f same id rows ∙ ap (Option.map f) e)

pub update_row-id :
    (id status : String) (key : Option String) (b : Batch) → (update_row id status key b).id ≡ b.id
unfolding update_row
update_row-id id status key b = elim (Bool-cases (str_eq b.id id)) [
  | inl t ↦ rw t (with_status-id status key b)
  | inr f ↦ rw f refl
]

pub update_done-IsConsistent :
    (id status : String) (key : Option String) (t : Tables) (n : ℕ)
    → IsConsistent t
    → IsConsistent (update_done t (map (update_row id status key) t.audit_batches) n).0
unfolding update_done
update_done-IsConsistent id status key t zero h = h
update_done-IsConsistent id status key t (suc n) h =
    let f = update_row id status key in
    let same = update_row-id id status key in
    record {
      batch_keys = HasUnique-map batch_key f same t.audit_batches h.batch_keys;
      record_keys = h.record_keys;
      entry_keys = h.entry_keys;
      record_batches =
          All-implies _ _ t.audit_records
            (λ (r : RecordRow). HasBatch-map f same t.audit_batches r.batch_id) h.record_batches;
      entry_batches =
          All-implies _ _ t.audit_worm_index
            (λ (e : WormIndexEntry). HasBatch-map f same t.audit_batches e.batch_id)
            h.entry_batches;
    }

find_record-delete_rows :
    (batch_id id : String) (rows : List RecordRow)
    → find_record id rows ≡ none
    → find_record id (delete_rows batch_id rows) ≡ none
unfolding find_row delete_rows
find_record-delete_rows batch_id id [] e = refl
find_record-delete_rows batch_id id (r ∷ rows) e = elim (Bool-cases (str_eq r.id id)) [
  | inl t ↦ cc (rw (find_row, t) at e)
  | inr f ↦
      let h = find_record-delete_rows batch_id id rows (rw (find_row, f) at e) in
      elim (Bool-cases (str_eq r.batch_id batch_id)) [
        | inl t ↦ rw t h
        | inr g ↦ rw (g, find_row, f) h
      ]
]

pub HasUnique-delete_rows :
    (batch_id : String) (rows : List RecordRow)
    → HasUnique record_key rows
    → HasUnique record_key (delete_rows batch_id rows)
unfolding delete_rows
HasUnique-delete_rows batch_id [] h = tt
HasUnique-delete_rows batch_id (r ∷ rows) h = elim (Bool-cases (str_eq r.batch_id batch_id)) [
  | inl t ↦ rw t (HasUnique-delete_rows batch_id rows h.1)
  | inr f ↦
      rw f (find_record-delete_rows batch_id r.id rows h.0, HasUnique-delete_rows batch_id rows h.1)
]

pub All-delete_rows :
    (P : RecordRow → Type 0) (batch_id : String) (rows : List RecordRow)
    → All P rows
    → All P (delete_rows batch_id rows)
unfolding delete_rows
All-delete_rows P batch_id [] h = tt
All-delete_rows P batch_id (r ∷ rows) h = elim (Bool-cases (str_eq r.batch_id batch_id)) [
  | inl t ↦ rw t (All-delete_rows P batch_id rows h.1)
  | inr f ↦ rw f (h.0, All-delete_rows P batch_id rows h.1)
]

find_entry-upsert :
    (e : WormIndexEntry) (id : String) (rows : List WormIndexEntry)
    → str_eq e.batch_id id ≡ false
    → find_entry id rows ≡ none
    → find_entry id (upsert e rows) ≡ none
unfolding find_row upsert
find_entry-upsert e id [] n h = rw n refl
find_entry-upsert e id (d ∷ rows) n h = elim (Bool-cases (str_eq d.batch_id id)) [
  | inl t ↦ cc (rw (find_row, t) at h)
  | inr f ↦
      let later : find_entry id rows ≡ none = (rw (find_row, f) at h) in
      elim (Bool-cases (str_eq d.batch_id e.batch_id)) [
        | inl t ↦ rw (t, find_row, n) later
        | inr g ↦ rw (g, find_row, f) (find_entry-upsert e id rows n later)
      ]
]

pub HasUnique-upsert :
    (e : WormIndexEntry) (rows : List WormIndexEntry)
    → HasUnique entry_key rows
    → HasUnique entry_key (upsert e rows)
unfolding upsert
HasUnique-upsert e [] h = (unfold find_row in refl, tt)
HasUnique-upsert e (d ∷ rows) h = elim (Bool-cases (str_eq d.batch_id e.batch_id)) [
  | inl t ↦
      let same : d.batch_id ≡ e.batch_id = (eq_iff d.batch_id e.batch_id).0 t in
      rw t (subst (λ k. find_entry k rows ≡ none) same h.0, h.1)
  | inr f ↦
      let other : str_eq e.batch_id d.batch_id ≡ false =
        ground (arith, eq_iff d.batch_id e.batch_id, eq_iff e.batch_id d.batch_id) in
      rw f (find_entry-upsert e d.batch_id rows other h.0, HasUnique-upsert e rows h.1)
]

pub All-upsert :
    (P : WormIndexEntry → Type 0) (e : WormIndexEntry) (rows : List WormIndexEntry)
    → P e
    → All P rows
    → All P (upsert e rows)
unfolding upsert
All-upsert P e [] p h = (p, tt)
All-upsert P e (d ∷ rows) p h = elim (Bool-cases (str_eq d.batch_id e.batch_id)) [
  | inl t ↦ rw t (p, h.1)
  | inr f ↦ rw f (h.0, All-upsert P e rows p h.1)
]
