-- ===== src/Store/Sorting.antt =====
-- The sort by leaf index of internal/store/store.go on the orders of its input.
use mathlib.Core.List.{Memᴰ}
use mathlib.Core.List.Permᴰ
use mathlib.Core.List.{Permᴰ}
use logs_tracker.Prelude.{
  ◌≡◌, refl, ap, sym, ◌∙◌, true, false, Bool-cases, inl, inr, List, [], ◌∷◌, leb, arith,
}
use logs_tracker.Store.{Record, insert_by_index, sort_by_index}

pub moved : {A : Type 0} {a : A} {xs ys : List A} → Permᴰ xs ys → Memᴰ a xs → Memᴰ a ys
moved Permᴰ.nil m = elim m [ ]
moved (Permᴰ.cons e p) (Memᴰ.head q) = Memᴰ.head (q ∙ e)
moved (Permᴰ.cons e p) (Memᴰ.tail m) = Memᴰ.tail (moved p m)
moved (Permᴰ.swap e f) (Memᴰ.head q) = Memᴰ.tail (Memᴰ.head (q ∙ e))
moved (Permᴰ.swap e f) (Memᴰ.tail (Memᴰ.head q)) = Memᴰ.head (q ∙ f)
moved (Permᴰ.swap e f) (Memᴰ.tail (Memᴰ.tail m)) = Memᴰ.tail (Memᴰ.tail m)
moved (Permᴰ.trans p q) m = moved q (moved p m)

-- The index names the record.
abbrev pub IsDistinct : List Record → Type 0
IsDistinct rs =
    (r s : Record) → Memᴰ r rs → Memᴰ s rs → r.merkle_leaf_index ≡ s.merkle_leaf_index → r ≡ s

insert-empty : (r : Record) → insert_by_index r [] ≡ r ∷ []
unfolding insert_by_index
insert-empty r = refl

insert-before :
    (r s : Record) (rest : List Record)
    → leb r.merkle_leaf_index s.merkle_leaf_index ≡ true
    → insert_by_index r (s ∷ rest) ≡ r ∷ s ∷ rest
unfolding insert_by_index
insert-before r s rest t = rw t refl

insert-after :
    (r s : Record) (rest : List Record)
    → leb r.merkle_leaf_index s.merkle_leaf_index ≡ false
    → insert_by_index r (s ∷ rest) ≡ s ∷ insert_by_index r rest
unfolding insert_by_index
insert-after r s rest f = rw f refl

-- Two records before the rest.
insert-both :
    (r s : Record) (rest : List Record)
    → (r.merkle_leaf_index ≡ s.merkle_leaf_index → r ≡ s)
    → insert_by_index r rest ≡ r ∷ rest
    → insert_by_index s rest ≡ s ∷ rest
    → insert_by_index r (s ∷ rest) ≡ insert_by_index s (r ∷ rest)
insert-both r s rest same first second =
    elim (Bool-cases (leb r.merkle_leaf_index s.merkle_leaf_index)) [
      | inl t ↦ elim (Bool-cases (leb s.merkle_leaf_index r.merkle_leaf_index)) [
        | inl u ↦
            (let one : r ≡ s = same (ground arith) in
              ap (λ x. insert_by_index x (s ∷ rest)) one
              ∙ ap (λ x. insert_by_index s (x ∷ rest)) (sym one))
        | inr g ↦ insert-before r s rest t ∙ ap (◌∷◌ r) (sym second) ∙ sym (insert-after s r rest g)
      ]
      | inr f ↦
          let later : leb s.merkle_leaf_index r.merkle_leaf_index ≡ true = ground arith in
          insert-after r s rest f ∙ ap (◌∷◌ s) first ∙ sym (insert-before s r rest later)
    ]

-- One record before the head of the rest and one after it.
insert-apart :
    (r s c : Record) (rest : List Record)
    → leb r.merkle_leaf_index c.merkle_leaf_index ≡ true
    → leb s.merkle_leaf_index c.merkle_leaf_index ≡ false
    → insert_by_index r (insert_by_index s (c ∷ rest))
      ≡ insert_by_index s (insert_by_index r (c ∷ rest))
insert-apart r s c rest t f =
    let later : leb s.merkle_leaf_index r.merkle_leaf_index ≡ false = ground arith in
    ap (insert_by_index r) (insert-after s c rest f)
    ∙ insert-before r c (insert_by_index s rest) t
    ∙ ap (◌∷◌ r) (sym (insert-after s c rest f))
    ∙ sym (insert-after s r (c ∷ rest) later)
    ∙ ap (insert_by_index s) (sym (insert-before r c rest t))

insert_comm :
    (r s : Record) (rs : List Record)
    → (r.merkle_leaf_index ≡ s.merkle_leaf_index → r ≡ s)
    → insert_by_index r (insert_by_index s rs) ≡ insert_by_index s (insert_by_index r rs)
insert_comm r s [] same =
    ap (insert_by_index r) (insert-empty s)
    ∙ insert-both r s [] same (insert-empty r) (insert-empty s)
    ∙ ap (insert_by_index s) (sym (insert-empty r))
insert_comm r s (c ∷ rest) same = elim (Bool-cases (leb r.merkle_leaf_index c.merkle_leaf_index)) [
  | inl t ↦ elim (Bool-cases (leb s.merkle_leaf_index c.merkle_leaf_index)) [
    | inl u ↦
        ap (insert_by_index r) (insert-before s c rest u)
        ∙ insert-both r s (c ∷ rest) same (insert-before r c rest t) (insert-before s c rest u)
        ∙ ap (insert_by_index s) (sym (insert-before r c rest t))
    | inr g ↦ insert-apart r s c rest t g
  ]
  | inr f ↦ elim (Bool-cases (leb s.merkle_leaf_index c.merkle_leaf_index)) [
    | inl u ↦ sym (insert-apart s r c rest u f)
    | inr g ↦
        ap (insert_by_index r) (insert-after s c rest g)
        ∙ insert-after r c (insert_by_index s rest) f
        ∙ ap (◌∷◌ c) (insert_comm r s rest same)
        ∙ sym (insert-after s c (insert_by_index r rest) g)
        ∙ ap (insert_by_index s) (sym (insert-after r c rest f))
  ]
]

pub sort-Permᴰ :
    {rs ss : List Record} → Permᴰ rs ss → IsDistinct rs → sort_by_index rs ≡ sort_by_index ss
unfolding sort_by_index
sort-Permᴰ Permᴰ.nil d = refl
sort-Permᴰ (Permᴰ.cons {a} {b} {l₁} {l₂} e p) d =
    ap (insert_by_index a) (sort-Permᴰ p (λ r s h k. d r s (Memᴰ.tail h) (Memᴰ.tail k)))
    ∙ ap (λ x. insert_by_index x (sort_by_index l₂)) e
sort-Permᴰ (Permᴰ.swap {a} {b} {a'} {b'} {l} e f) d =
    insert_comm a b (sort_by_index l) (d a b (Memᴰ.head refl) (Memᴰ.tail (Memᴰ.head refl)))
    ∙ ap (λ x. insert_by_index x (insert_by_index a (sort_by_index l))) f
    ∙ ap (λ x. insert_by_index a' (insert_by_index x (sort_by_index l))) e
sort-Permᴰ (Permᴰ.trans p q) d =
    sort-Permᴰ p d
    ∙ sort-Permᴰ q (λ r s h k. d r s (moved (Permᴰ.symm p) h) (moved (Permᴰ.symm p) k))
