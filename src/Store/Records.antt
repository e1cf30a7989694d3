-- ===== src/Store/Records.antt =====
-- What the MemoryStore of internal/store/store.go lists and purges of a batch.
use logs_tracker.Prelude.{
  ℕ, ◌≤◌, All, String, ◌≡◌, ◌≢◌, refl, ap, subst, true, false, Bool-cases, some, List, [], ◌∷◌,
  zero, suc, Occurs, arith, str_eq, eq_iff, inl, inr, leb,
}
use logs_tracker.Prelude.Dict.{Dict, get}
use logs_tracker.Store.{
  Record, select, in_batch, drop_batch, insert_by_index, sort_by_index, MemoryStore,
  get_records_by_batch_id, delete_records_by_batch_id,
}

insert_by_index-Occurs : (r : Record) (rs : List Record) → Occurs r (insert_by_index r rs)
unfolding insert_by_index
insert_by_index-Occurs r [] = (0, refl)
insert_by_index-Occurs r (s ∷ rs) =
    elim (Bool-cases (leb r.merkle_leaf_index s.merkle_leaf_index)) [
      | inl t ↦ rw (insert_by_index, t) (0, refl)
      | inr f ↦ let (i, e) = insert_by_index-Occurs r rs in rw (insert_by_index, f) (suc i, e)
    ]

Occurs-insert_by_index :
    (q r : Record) (rs : List Record) → Occurs r rs → Occurs r (insert_by_index q rs)
unfolding insert_by_index
Occurs-insert_by_index q r [] (i, e) = cc
Occurs-insert_by_index q r (s ∷ rs) (zero, e) =
    elim (Bool-cases (leb q.merkle_leaf_index s.merkle_leaf_index)) [
      | inl t ↦ rw (insert_by_index, t) (1, e)
      | inr f ↦ rw (insert_by_index, f) (0, e)
    ]
Occurs-insert_by_index q r (s ∷ rs) (suc i, e) =
    elim (Bool-cases (leb q.merkle_leaf_index s.merkle_leaf_index)) [
      | inl t ↦ rw (insert_by_index, t) (suc (suc i), e)
      | inr f ↦
          let (j, h) = Occurs-insert_by_index q r rs (i, e) in rw (insert_by_index, f) (suc j, h)
    ]

Occurs-sort_by_index : (r : Record) (rs : List Record) → Occurs r rs → Occurs r (sort_by_index rs)
unfolding sort_by_index
Occurs-sort_by_index r [] (i, e) = cc
Occurs-sort_by_index r (s ∷ rs) (zero, e) =
    let same : s ≡ r = cc in
    subst (λ q. Occurs q (insert_by_index s (sort_by_index rs))) same
      (insert_by_index-Occurs s (sort_by_index rs))
Occurs-sort_by_index r (s ∷ rs) (suc i, e) =
    Occurs-insert_by_index s r (sort_by_index rs) (Occurs-sort_by_index r rs (i, e))

Occurs-select :
    (k : String) (r : Record) (m : Dict Record)
    → get k m ≡ some r
    → Occurs r (select (in_batch r.batch_id) m)
unfolding select in_batch get
Occurs-select k r [] e = cc
Occurs-select k r ((j, q) ∷ m) e = elim (Bool-cases (str_eq j k)) [
  | inl t ↦
      let q_is : some q ≡ some r = (rw (get, t) at e) in
      let same : q ≡ r = cc in
      let kept : str_eq q.batch_id r.batch_id ≡ true =
        ground (arith, eq_iff q.batch_id r.batch_id) in
      rw (select, kept) (0, q_is)
  | inr f ↦
      let (i, h) = Occurs-select k r m (rw (get, f) at e) in
      elim (Bool-cases (str_eq q.batch_id r.batch_id)) [
        | inl t ↦ rw (select, t) (suc i, h)
        | inr g ↦ rw (select, g) (i, h)
      ]
]

get-drop_batch :
    (batch_id k : String) (r : Record) (m : Dict Record)
    → r.batch_id ≢ batch_id
    → get k m ≡ some r
    → get k (drop_batch batch_id m) ≡ some r
unfolding drop_batch in_batch get
get-drop_batch batch_id k r [] n e = cc
get-drop_batch batch_id k r ((j, q) ∷ m) n e = elim (Bool-cases (str_eq j k)) [
  | inl t ↦
      let q_is : some q ≡ some r = (rw (get, t) at e) in
      let same : q ≡ r = cc in
      let kept : str_eq q.batch_id batch_id ≡ false =
        ground (arith, eq_iff q.batch_id batch_id, ap (λ (x : Record). x.batch_id) same) in
      rw (drop_batch, kept) (rw (get, t) q_is)
  | inr f ↦
      let h = get-drop_batch batch_id k r m n (rw (get, f) at e) in
      elim (Bool-cases (str_eq q.batch_id batch_id)) [
        | inl t ↦ rw (drop_batch, t) h
        | inr g ↦ rw (drop_batch, g) (rw (get, f) h)
      ]
]

-- The leaf indexes do not fall.
abbrev pub IsAscending : List Record → Type 0
IsAscending [] = Unit
IsAscending (r ∷ rs) =
    All (λ (s : Record). r.merkle_leaf_index ≤ s.merkle_leaf_index) rs × IsAscending rs

All-insert_by_index :
    (P : Record → Type 0) (r : Record) (rs : List Record)
    → P r
    → All P rs
    → All P (insert_by_index r rs)
unfolding insert_by_index
All-insert_by_index P r [] p h = (p, tt)
All-insert_by_index P r (s ∷ rs) p h =
    elim (Bool-cases (leb r.merkle_leaf_index s.merkle_leaf_index)) [
      | inl t ↦ rw (insert_by_index, t) (p, h)
      | inr f ↦ rw (insert_by_index, f) (h.0, All-insert_by_index P r rs p h.1)
    ]

All-sort_by_index : (P : Record → Type 0) (rs : List Record) → All P rs → All P (sort_by_index rs)
unfolding sort_by_index
All-sort_by_index P [] h = tt
All-sort_by_index P (r ∷ rs) h =
    All-insert_by_index P r (sort_by_index rs) h.0 (All-sort_by_index P rs h.1)

All-weaken :
    (m n : ℕ) (rs : List Record)
    → m ≤ n
    → All (λ (s : Record). n ≤ s.merkle_leaf_index) rs
    → All (λ (s : Record). m ≤ s.merkle_leaf_index) rs
All-weaken m n [] l h = tt
All-weaken m n (r ∷ rs) l h = (omega (arith, l, h.0), All-weaken m n rs l h.1)

insert_by_index-IsAscending :
    (r : Record) (rs : List Record) → IsAscending rs → IsAscending (insert_by_index r rs)
unfolding insert_by_index
insert_by_index-IsAscending r [] h = (tt, tt)
insert_by_index-IsAscending r (s ∷ rs) h =
    elim (Bool-cases (leb r.merkle_leaf_index s.merkle_leaf_index)) [
      | inl t ↦
          let le : r.merkle_leaf_index ≤ s.merkle_leaf_index = ground arith in
          rw (insert_by_index, t)
            ((le, All-weaken r.merkle_leaf_index s.merkle_leaf_index rs le h.0), h)
      | inr f ↦
          let le : s.merkle_leaf_index ≤ r.merkle_leaf_index = ground arith in
          rw (insert_by_index, f)
            (
              All-insert_by_index (λ (q : Record). s.merkle_leaf_index ≤ q.merkle_leaf_index) r rs
                  le h.0,
              insert_by_index-IsAscending r rs h.1,
            )
    ]

sort_by_index-IsAscending : (rs : List Record) → IsAscending (sort_by_index rs)
unfolding sort_by_index
sort_by_index-IsAscending [] = tt
sort_by_index-IsAscending (r ∷ rs) =
    insert_by_index-IsAscending r (sort_by_index rs) (sort_by_index-IsAscending rs)

All-select :
    (batch_id : String) (m : Dict Record)
    → All (λ (r : Record). r.batch_id ≡ batch_id) (select (in_batch batch_id) m)
unfolding select in_batch
All-select batch_id [] = tt
All-select batch_id ((k, r) ∷ m) = elim (Bool-cases (str_eq r.batch_id batch_id)) [
  | inl t ↦
      let same : r.batch_id ≡ batch_id = ground (arith, eq_iff r.batch_id batch_id) in
      rw (select, t) (same, All-select batch_id m)
  | inr f ↦ rw (select, f) (All-select batch_id m)
]

-- The records that the store lists for a batch are of that batch and in the order of their leaf
-- indexes, and a record of the batch that the store has is among them.
pub get_records_by_batch_id_lem :
    (k : String) (r : Record) (m : MemoryStore)
    → get k m.records ≡ some r
    → IsAscending (get_records_by_batch_id r.batch_id m)
      × All (λ (q : Record). q.batch_id ≡ r.batch_id) (get_records_by_batch_id r.batch_id m)
      × Occurs r (get_records_by_batch_id r.batch_id m)
unfolding get_records_by_batch_id
get_records_by_batch_id_lem k r m e =
    let chosen = select (in_batch r.batch_id) m.records in
    (
      sort_by_index-IsAscending chosen,
      All-sort_by_index (λ (q : Record). q.batch_id ≡ r.batch_id) chosen
          (All-select r.batch_id m.records),
      Occurs-sort_by_index r chosen (Occurs-select k r m.records e),
    )

-- A purge of a batch keeps every record of another batch.
pub delete_records_by_batch_id-keeps :
    (batch_id k : String) (r : Record) (m : MemoryStore)
    → r.batch_id ≢ batch_id
    → get k m.records ≡ some r
    → get k (delete_records_by_batch_id batch_id m).records ≡ some r
unfolding delete_records_by_batch_id
delete_records_by_batch_id-keeps batch_id k r m n e = get-drop_batch batch_id k r m.records n e
