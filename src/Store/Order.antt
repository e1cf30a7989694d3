-- ===== src/Store/Order.antt =====
-- The order in which `range` visits the maps of MemoryStore in internal/store/store.go.
use mathlib.Core.List.{Memᴰ}
use mathlib.Core.List.Permᴰ
use mathlib.Core.List.{Permᴰ}
use logs_tracker.Prelude.{
  String, ◌≡◌, refl, ap, sym, ◌∙◌, subst, Bool, true, false, inl, inr, ◌⊎◌, Option, some, List, [],
  ◌∷◌, str_eq, eq_iff, if◌then◌else◌,
}
use logs_tracker.Prelude.Dict.{Dict, get}
use logs_tracker.Errors.{ok, ◌>>=◌}
use logs_tracker.Merkle.Payload.{Runtime}
use logs_tracker.Store.{
  Record, MemoryStore, select, in_batch, get_records_by_batch_id, found, all_leaves, payload_of,
  get_record_for_verification,
}
use logs_tracker.Store.Sorting.{moved, IsDistinct, sort-Permᴰ}

kept-Permᴰ :
    (b : Bool) (r : Record) {rs ss : List Record}
    → Permᴰ rs ss
    → Permᴰ (if b then r ∷ rs else rs) (if b then r ∷ ss else ss)
kept-Permᴰ true r p = Permᴰ.cons refl p
kept-Permᴰ false r p = p

both-Permᴰ :
    (b c : Bool) (r s : Record) (rs : List Record)
    → (let after = λ (u : Bool) (x : Record) (l : List Record). if u then x ∷ l else l in
        Permᴰ (after b r (after c s rs)) (after c s (after b r rs)))
both-Permᴰ true true r s rs = Permᴰ.swap refl refl
both-Permᴰ true false r s rs = Permᴰ.refl (r ∷ rs)
both-Permᴰ false true r s rs = Permᴰ.refl (s ∷ rs)
both-Permᴰ false false r s rs = Permᴰ.refl rs

select-Permᴰ :
    (p : Record → Bool) {m m' : Dict Record} → Permᴰ m m' → Permᴰ (select p m) (select p m')
unfolding select
select-Permᴰ p Permᴰ.nil = Permᴰ.nil
select-Permᴰ p (Permᴰ.cons {a} {b} {l₁} {l₂} e q) =
    subst (λ x. Permᴰ (select p (a ∷ l₁)) (select p (x ∷ l₂))) e
      (kept-Permᴰ (p a.1) a.1 (select-Permᴰ p q))
select-Permᴰ p (Permᴰ.swap {a} {b} {a'} {b'} {l} e f) =
    subst (λ x. Permᴰ (select p (a ∷ b ∷ l)) (select p (x ∷ b' ∷ l))) f
      (subst (λ x. Permᴰ (select p (a ∷ b ∷ l)) (select p (b ∷ x ∷ l))) e
        (both-Permᴰ (p a.1) (p b.1) a.1 b.1 (select p l)))
select-Permᴰ p (Permᴰ.trans q r) = Permᴰ.trans (select-Permᴰ p q) (select-Permᴰ p r)

-- The records of a batch, whose indexes differ, are listed alike however the map is visited.
pub get_records_by_batch_id-Permᴰ :
    (id : String) (m m' : MemoryStore)
    → Permᴰ m.records m'.records
    → IsDistinct (select (in_batch id) m.records)
    → get_records_by_batch_id id m ≡ get_records_by_batch_id id m'
unfolding get_records_by_batch_id
get_records_by_batch_id-Permᴰ id m m' p d = sort-Permᴰ (select-Permᴰ (in_batch id) p) d

-- A key has one value.
abbrev pub HasOneEach : {V : Type 0} → Dict V → Type 0
HasOneEach {V} m = (a b : String × V) → Memᴰ a m → Memᴰ b m → a.0 ≡ b.0 → a ≡ b

either-first :
    {V : Type 0} (b c : Bool) (x y : V) (o : Option V)
    → (b ≡ true → c ≡ true → x ≡ y)
    → (let after = λ (u : Bool) (z : V) (p : Option V). if u then some z else p in
        after b x (after c y o) ≡ after c y (after b x o))
either-first true true x y o same = ap some (same refl refl)
either-first true false x y o same = refl
either-first false true x y o same = refl
either-first false false x y o same = refl

pub get-Permᴰ :
    {V : Type 0} (k : String) {m m' : Dict V} → Permᴰ m m' → HasOneEach m → get k m ≡ get k m'
unfolding get
get-Permᴰ k Permᴰ.nil d = refl
get-Permᴰ k (Permᴰ.cons {a} {b} {l₁} {l₂} e q) d =
    subst (λ x. get k (a ∷ l₁) ≡ get k (x ∷ l₂)) e
      (ap (λ o. if str_eq a.0 k then some a.1 else o)
        (get-Permᴰ k q (λ x y h i. d x y (Memᴰ.tail h) (Memᴰ.tail i))))
get-Permᴰ k (Permᴰ.swap {a} {b} {a'} {b'} {l} e f) d =
    subst (λ x. get k (a ∷ b ∷ l) ≡ get k (x ∷ b' ∷ l)) f
      (subst (λ x. get k (a ∷ b ∷ l) ≡ get k (b ∷ x ∷ l)) e
        (either-first (str_eq a.0 k) (str_eq b.0 k) a.1 b.1 (get k l) (λ t u.
          ap (λ x. x.1)
            (d a b (Memᴰ.head refl) (Memᴰ.tail (Memᴰ.head refl))
              ((eq_iff a.0 k).0 t ∙ sym ((eq_iff b.0 k).0 u))))))
get-Permᴰ k (Permᴰ.trans p q) d =
    get-Permᴰ k p d
    ∙ get-Permᴰ k q (λ x y h i. d x y (moved (Permᴰ.symm p) h) (moved (Permᴰ.symm p) i))

-- A batch has one record of an index.
abbrev pub HasOnePlace : Dict Record → Type 0
HasOnePlace m =
    (a b : String × Record)
    → Memᴰ a m
    → Memᴰ b m
    → a.1.batch_id ≡ b.1.batch_id
    → a.1.merkle_leaf_index ≡ b.1.merkle_leaf_index
    → a.1 ≡ b.1

selected_head :
    (b : Bool) (k : String) (r s : Record) (m : Dict Record) (rs : List Record)
    → Memᴰ r (if b then s ∷ rs else rs)
    → ((b ≡ true) × (r ≡ s)) ⊎ Memᴰ r rs
selected_head true k r s m rs (Memᴰ.head e) = inl (refl, e)
selected_head true k r s m rs (Memᴰ.tail h) = inr h
selected_head false k r s m rs h = inr h

selected :
    (p : Record → Bool) (m : Dict Record) (r : Record)
    → Memᴰ r (select p m)
    → (a : String × Record) × Memᴰ a m × (a.1 ≡ r) × (p r ≡ true)
unfolding select
selected p [] r h = elim h [ ]
selected p ((k, s) ∷ m) r h = elim (selected_head (p s) k r s m (select p m) h) [
  | inl (t, e) ↦ ((k, s), Memᴰ.head refl, sym e, ap p e ∙ t)
  | inr h' ↦ let (a, there, e, t) = selected p m r h' in (a, Memᴰ.tail there, e, t)
]

pub select-IsDistinct :
    (id : String) (m : Dict Record) → HasOnePlace m → IsDistinct (select (in_batch id) m)
unfolding in_batch
select-IsDistinct id m one r s h k e =
    let (a, there, ar, ta) = selected (in_batch id) m r h in
    let (b, here, bs, tb) = selected (in_batch id) m s k in
    let r_in : r.batch_id ≡ id = (eq_iff r.batch_id id).0 ta in
    let s_in : s.batch_id ≡ id = (eq_iff s.batch_id id).0 tb in
    let batches : a.1.batch_id ≡ b.1.batch_id =
      ap (λ (x : Record). x.batch_id) ar
      ∙ r_in
      ∙ sym s_in
      ∙ sym (ap (λ (x : Record). x.batch_id) bs) in
    let indexes : a.1.merkle_leaf_index ≡ b.1.merkle_leaf_index =
      ap (λ (x : Record). x.merkle_leaf_index) ar
      ∙ e
      ∙ sym (ap (λ (x : Record). x.merkle_leaf_index) bs) in
    sym ar ∙ one a b there here batches indexes ∙ bs

-- What a verifier is given of a record does not depend on the order in which Go visits the maps of
-- records and of batches, if a key has one value and a batch has one record of an index.
pub get_record_for_verification-Permᴰ :
    (rt : Runtime) (id : String) (m m' : MemoryStore)
    → Permᴰ m.records m'.records
    → Permᴰ m.batches m'.batches
    → HasOneEach m.records
    → HasOneEach m.batches
    → HasOnePlace m.records
    → get_record_for_verification rt id m ≡ get_record_for_verification rt id m'
unfolding get_record_for_verification
get_record_for_verification-Permᴰ rt id m m' p q d e f = λ i. do
  rec ← found (get-Permᴰ id p d i)
  batch ← found (get-Permᴰ rec.batch_id q e i)
  leaves ← all_leaves rt (
      get_records_by_batch_id-Permᴰ rec.batch_id m m' p (select-IsDistinct rec.batch_id m.records f)
        i)
  ok (
    payload_of rt rec,
    record {
      batch_id = batch.id;
      merkle_root = batch.merkle_root;
      signature = batch.signature;
      key_version = batch.key_version;
      all_leaf_hashes = leaves;
      proof = [];
    },
  )
