-- ===== src/Store/Latest.antt =====
-- The order in which `range` visits the batches of MemoryStore.GetLatestCheckpoint in
-- internal/store/store.go.
use mathlib.Core.List.{Memᴰ}
use mathlib.Core.List.Permᴰ
use mathlib.Core.List.{Permᴰ}
use logs_tracker.Prelude.{
  String, ◌≡◌, refl, ap, sym, ◌∙◌, false, Bool-cases, inl, inr, Option, none, some, ◌∷◌, ltb,
  if◌then◌else◌, arith,
}
use logs_tracker.Prelude.Dict.{Dict}
use logs_tracker.Store.{Batch, latest}
use logs_tracker.Store.Sorting.{moved}

-- The time of its closing names the batch.
abbrev pub HasOneTime : Dict Batch → Type 0
HasOneTime m =
    (a b : String × Batch) → Memᴰ a m → Memᴰ b m → a.1.closed_at ≡ b.1.closed_at → a.1 ≡ b.1

-- One step of the loop.
abbrev best_of : Option Batch → Batch → Option Batch
best_of none b = some b
best_of (some a) b = some (if ltb a.closed_at b.closed_at then b else a)

latest-cons :
    (o : Option Batch) (a : String × Batch) (m : Dict Batch)
    → latest o (a ∷ m) ≡ latest (best_of o a.1) m
unfolding latest
latest-cons none a m = refl
latest-cons (some b) a m = refl

newer_comm :
    (b c : Batch) → (b.closed_at ≡ c.closed_at → b ≡ c) → best_of (some b) c ≡ best_of (some c) b
newer_comm b c same = elim (Bool-cases (ltb b.closed_at c.closed_at)) [
  | inl t ↦ let f : ltb c.closed_at b.closed_at ≡ false = ground arith in rw (t, f) refl
  | inr f ↦ elim (Bool-cases (ltb c.closed_at b.closed_at)) [
    | inl t ↦ rw (f, t) refl
    | inr g ↦ let b_is : b ≡ c = same (ground arith) in rw (f, g) (ap some b_is)
  ]
]

best_of_comm :
    (o : Option Batch) (b c : Batch)
    → (b.closed_at ≡ c.closed_at → b ≡ c)
    → best_of (best_of o b) c ≡ best_of (best_of o c) b
best_of_comm none b c same = newer_comm b c same
best_of_comm (some a) b c same = elim (Bool-cases (ltb a.closed_at b.closed_at)) [
  | inl t ↦ elim (Bool-cases (ltb a.closed_at c.closed_at)) [
    | inl u ↦ rw (t, u) (newer_comm b c same)
    | inr g ↦ let f : ltb b.closed_at c.closed_at ≡ false = ground arith in rw (t, g, f, t) refl
  ]
  | inr f ↦ elim (Bool-cases (ltb a.closed_at c.closed_at)) [
    | inl u ↦ let g : ltb c.closed_at b.closed_at ≡ false = ground arith in rw (f, u, g) refl
    | inr g ↦ rw (f, g, f) refl
  ]
]

pub latest-Permᴰ :
    (o : Option Batch) {m m' : Dict Batch} → Permᴰ m m' → HasOneTime m → latest o m ≡ latest o m'
latest-Permᴰ o Permᴰ.nil d = refl
latest-Permᴰ o (Permᴰ.cons {a} {b} {l₁} {l₂} e p) d =
    latest-cons o a l₁
    ∙ latest-Permᴰ (best_of o a.1) p (λ x y h k. d x y (Memᴰ.tail h) (Memᴰ.tail k))
    ∙ ap (λ x. latest (best_of o x.1) l₂) e
    ∙ sym (latest-cons o b l₂)
latest-Permᴰ o (Permᴰ.swap {a} {b} {a'} {b'} {l} e f) d =
    latest-cons o a (b ∷ l)
    ∙ latest-cons (best_of o a.1) b l
    ∙ ap (λ x. latest x l)
        (best_of_comm o a.1 b.1 (d a b (Memᴰ.head refl) (Memᴰ.tail (Memᴰ.head refl))))
    ∙ ap (λ x. latest (best_of (best_of o x.1) a.1) l) f
    ∙ ap (λ x. latest (best_of (best_of o a'.1) x.1) l) e
    ∙ sym (latest-cons (best_of o a'.1) b' l)
    ∙ sym (latest-cons o a' (b' ∷ l))
latest-Permᴰ o (Permᴰ.trans p q) d =
    latest-Permᴰ o p d
    ∙ latest-Permᴰ o q (λ x y h k. d x y (moved (Permᴰ.symm p) h) (moved (Permᴰ.symm p) k))
