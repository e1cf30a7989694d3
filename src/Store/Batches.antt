-- ===== src/Store/Batches.antt =====
-- What the MemoryStore of internal/store/store.go has of a batch that was just created.
use mathlib.Core.List.{append-nil, append_assoc}
use logs_tracker.Prelude.{
  ℕ, zero, suc, ◌+◌, String, ◌≡◌, ◌≢◌, refl, ap, sym, ◌∙◌, subst, true, false, Bool-cases, none,
  some, List, [], ◌∷◌, ◌++◌, get_elem?, arith, str_eq, eq_iff, leb, inl, inr,
}
use logs_tracker.Prelude.Dict.{Dict, get, put, get-put, put-absent}
use logs_tracker.Store.{
  Record, MemoryStore, select, in_batch, insert_by_index, sort_by_index, put_records,
  get_records_by_batch_id,
}

-- Each identifier is new when its record is put.
abbrev pub IsFresh : List Record → Dict Record → Type 0
IsFresh [] m = Unit
IsFresh (r ∷ rs) m = (get r.id m ≡ none) × IsFresh rs (put r.id r m)

-- The records have this batch, and their places as indexes, counted from `n`.
abbrev pub IsSequence : String → ℕ → List Record → Type 0
IsSequence id n [] = Unit
IsSequence id n (r ∷ rs) = (r.batch_id ≡ id) × (r.merkle_leaf_index ≡ n) × IsSequence id (suc n) rs

select-snoc :
    (batch_id : String) (k : String) (r : Record) (m : Dict Record)
    → r.batch_id ≡ batch_id
    → select (in_batch batch_id) (m ++ (k, r) ∷ []) ≡ select (in_batch batch_id) m ++ r ∷ []
unfolding select in_batch
select-snoc batch_id k r [] e =
    let t : str_eq r.batch_id batch_id ≡ true = ground (arith, eq_iff r.batch_id batch_id) in
    rw (select, t) refl
select-snoc batch_id k r ((j, q) ∷ m) e = elim (Bool-cases (str_eq q.batch_id batch_id)) [
  | inl t ↦ rw (select, t) (ap (◌∷◌ q) (select-snoc batch_id k r m e))
  | inr f ↦ rw (select, f) (select-snoc batch_id k r m e)
]

select-put_records :
    (batch_id : String) (n : ℕ) (rs : List Record) (m : Dict Record)
    → IsSequence batch_id n rs
    → IsFresh rs m
    → select (in_batch batch_id) (put_records rs m) ≡ select (in_batch batch_id) m ++ rs
unfolding put_records
select-put_records batch_id n [] m s f = sym (append-nil _)
select-put_records batch_id n (r ∷ rs) m s f =
    select-put_records batch_id (suc n) rs (put r.id r m) s.2 f.1
    ∙ ap (λ u. select (in_batch batch_id) u ++ rs) (put-absent r.id r m f.0)
    ∙ ap (λ u. u ++ rs) (select-snoc batch_id r.id r m s.0)
    ∙ append_assoc (select (in_batch batch_id) m) (r ∷ []) rs

insert_first :
    (id : String) (n : ℕ) (r : Record) (rs : List Record)
    → IsSequence id n (r ∷ rs)
    → insert_by_index r rs ≡ r ∷ rs
unfolding insert_by_index
insert_first id n r [] h = refl
insert_first id n r (s ∷ rs) h =
    let first : r.merkle_leaf_index ≡ n = h.1 in
    let second : s.merkle_leaf_index ≡ suc n = h.2.1 in
    let t : leb r.merkle_leaf_index s.merkle_leaf_index ≡ true = ground arith in
    rw (insert_by_index, t) refl

sort-IsSequence :
    (id : String) (n : ℕ) (rs : List Record) → IsSequence id n rs → sort_by_index rs ≡ rs
unfolding sort_by_index
sort-IsSequence id n [] h = refl
sort-IsSequence id n (r ∷ rs) h =
    ap (insert_by_index r) (sort-IsSequence id (suc n) rs h.2) ∙ insert_first id n r rs h

insert_cons-ne : (r : Record) (rs : List Record) → insert_by_index r rs ≢ []
unfolding insert_by_index
insert_cons-ne r [] e = cc
insert_cons-ne r (s ∷ rs) e = elim (Bool-cases (leb r.merkle_leaf_index s.merkle_leaf_index)) [
  | inl t ↦ cc (rw (insert_by_index, t) at e)
  | inr f ↦ cc (rw (insert_by_index, f) at e)
]

sort-empty : (rs : List Record) → sort_by_index rs ≡ [] → rs ≡ []
unfolding sort_by_index
sort-empty [] e = refl
sort-empty (r ∷ rs) e = absurd (insert_cons-ne r (sort_by_index rs) e)

-- After the records of a new batch are put under new identifiers, the store lists them as they
-- were given.
pub get_records-put_records :
    (batch_id : String) (rs : List Record) (m m' : MemoryStore)
    → get_records_by_batch_id batch_id m ≡ []
    → IsSequence batch_id 0 rs
    → IsFresh rs m.records
    → m'.records ≡ put_records rs m.records
    → get_records_by_batch_id batch_id m' ≡ rs
unfolding get_records_by_batch_id
get_records-put_records batch_id rs m m' empty s f e =
    let before : select (in_batch batch_id) m.records ≡ [] = sort-empty _ empty in
    ap (λ u. sort_by_index (select (in_batch batch_id) u)) e
    ∙ ap sort_by_index (select-put_records batch_id 0 rs m.records s f)
    ∙ ap (λ u. sort_by_index (u ++ rs)) before
    ∙ sort-IsSequence batch_id 0 rs s

fresh-keeps :
    (k : String) (v : Record) (rs : List Record) (m : Dict Record)
    → get k m ≡ some v
    → IsFresh rs m
    → get k (put_records rs m) ≡ some v
unfolding put_records
fresh-keeps k v [] m e f = e
fresh-keeps k v (r ∷ rs) m e f =
    let other : str_eq r.id k ≡ false = ground (arith, eq_iff r.id k) in
    let kept : get k (put r.id r m) ≡ some v = ground (arith, get-put k r.id r m) in
    fresh-keeps k v rs (put r.id r m) kept f.1

pub get-put_records :
    (i : ℕ) (r : Record) (rs : List Record) (m : Dict Record)
    → get_elem? rs i ≡ some r
    → IsFresh rs m
    → get r.id (put_records rs m) ≡ some r
unfolding put_records
get-put_records i r [] m e f = cc
get-put_records zero r (q ∷ rs) m e f =
    let same : q ≡ r = cc in
    let there : get q.id (put q.id q m) ≡ some q =
      ground (arith, get-put q.id q.id q m, eq_iff q.id q.id) in
    subst (λ u. get u.id (put_records rs (put q.id q m)) ≡ some u) same
      (fresh-keeps q.id q rs (put q.id q m) there f.1)
get-put_records (suc i) r (q ∷ rs) m e f = get-put_records i r rs (put q.id q m) e f.1

pub IsSequence-get_elem? :
    (id : String) (n i : ℕ) (rs : List Record) (r : Record)
    → IsSequence id n rs
    → get_elem? rs i ≡ some r
    → (r.batch_id ≡ id) × (r.merkle_leaf_index ≡ n + i)
IsSequence-get_elem? id n i [] r h e = cc
IsSequence-get_elem? id n zero (q ∷ rs) r h e =
    let same : q ≡ r = cc in
    let index : n ≡ n + 0 = omega arith in
    subst (λ u. (u.batch_id ≡ id) × (u.merkle_leaf_index ≡ n + 0)) same (h.0, h.1 ∙ index)
IsSequence-get_elem? id n (suc i) (q ∷ rs) r h e =
    let (b, x) = IsSequence-get_elem? id (suc n) i rs r h.2 e in
    let index : suc n + i ≡ n + suc i = omega arith in (b, x ∙ index)
