-- ===== src/Prelude/Lists.antt =====
-- Lists measured and indexed by native numbers, under the library's names.
use Prim.Native.Nat.{ℕ, zero, suc, ◌+◌, ◌<◌}
use mathlib.Core.Path.{◌≡◌, refl, ap, subst}
use mathlib.Core.Logic.{◌⊎◌, inl, inr}
use mathlib.Core.List.{List, [], ◌∷◌, ◌++◌, map}
use mathlib.Core.Option.{Option, none, some}
use native.Mathlib.Omega.{arith}

module _ {ℓ} {A : Type ℓ} where
  abbrev pub length : List A → ℕ
  length [] = 0
  length (x ∷ xs) = suc (length xs)

  abbrev pub get_elem? : List A → ℕ → Option A
  get_elem? [] i = none
  get_elem? (x ∷ xs) zero = some x
  get_elem? (x ∷ xs) (suc i) = get_elem? xs i

  abbrev pub take : ℕ → List A → List A
  take zero xs = []
  take (suc n) [] = []
  take (suc n) (x ∷ xs) = x ∷ take n xs

  abbrev pub drop : ℕ → List A → List A
  drop zero xs = xs
  drop (suc n) [] = []
  drop (suc n) (x ∷ xs) = drop n xs

  pub take-length-append : (xs ys : List A) → take (length xs) (xs ++ ys) ≡ xs
  take-length-append [] ys = refl
  take-length-append (x ∷ xs) ys = ap (◌∷◌ x) (take-length-append xs ys)

  pub drop-length-append : (xs ys : List A) → drop (length xs) (xs ++ ys) ≡ ys
  drop-length-append [] ys = refl
  drop-length-append (x ∷ xs) ys = drop-length-append xs ys

  pub length-append : (xs ys : List A) → length (xs ++ ys) ≡ length xs + length ys
  length-append [] ys = omega arith
  length-append (x ∷ xs) ys = omega (arith, length-append xs ys)

  pub get_elem?-lt-length : (xs : List A) (i : ℕ) {a : A} → get_elem? xs i ≡ some a → i < length xs
  get_elem?-lt-length [] i h = cc
  get_elem?-lt-length (x ∷ xs) zero h = omega arith
  get_elem?-lt-length (x ∷ xs) (suc i) h = omega (arith, get_elem?-lt-length xs i h)

  -- A value stands somewhere in a list.
  abbrev pub Occurs : A → List A → Type ℓ
  Occurs x xs = (i : ℕ) × (get_elem? xs i ≡ some x)

  pub Occurs-append_left : (x : A) (xs ys : List A) → Occurs x xs → Occurs x (xs ++ ys)
  Occurs-append_left x [] ys (i, e) = cc
  Occurs-append_left x (y ∷ xs) ys (zero, e) = (zero, e)
  Occurs-append_left x (y ∷ xs) ys (suc i, e) =
      let (j, q) = Occurs-append_left x xs ys (i, e) in (suc j, q)

  pub Occurs-append_right : (x : A) (xs ys : List A) → Occurs x ys → Occurs x (xs ++ ys)
  Occurs-append_right x [] ys o = o
  Occurs-append_right x (y ∷ xs) ys o = let (j, q) = Occurs-append_right x xs ys o in (suc j, q)

  -- A list is empty or has a last element.
  pub snoc_cases : (xs : List A) → (xs ≡ []) ⊎ ((ys : List A) × (y : A) × (xs ≡ ys ++ y ∷ []))
  snoc_cases [] = inl refl
  snoc_cases (x ∷ xs) = elim (snoc_cases xs) [
    | inl e ↦ inr ([], x, ap (◌∷◌ x) e)
    | inr (ys, y, e) ↦ inr (x ∷ ys, y, ap (◌∷◌ x) e)
  ]

  -- Two splits of one list at the same place are the same split.
  pub append-injective :
      (xs ys us vs : List A) → length xs ≡ length us → xs ++ ys ≡ us ++ vs → (xs ≡ us) × (ys ≡ vs)
  append-injective [] ys [] vs n e = (refl, e)
  append-injective [] ys (u ∷ us) vs n e = absurd (omega arith)
  append-injective (x ∷ xs) ys [] vs n e = absurd (omega arith)
  append-injective (x ∷ xs) ys (u ∷ us) vs n e =
      let (p, q) = append-injective xs ys us vs (omega arith) (cc) in (cc, q)

  pub append-injective_right :
      (xs ys us vs : List A) → length ys ≡ length vs → xs ++ ys ≡ us ++ vs → (xs ≡ us) × (ys ≡ vs)
  append-injective_right xs ys us vs n e =
      append-injective xs ys us vs
        (omega (arith, ap length e, length-append xs ys, length-append us vs)) e

module _ {ℓ κ} {A : Type ℓ} {B : Type κ} where
  pub length-map : (f : A → B) (xs : List A) → length (map f xs) ≡ length xs
  length-map f [] = refl
  length-map f (x ∷ xs) = ap suc (length-map f xs)

  -- A split of a mapped list is the map of a split.
  pub map-eq-append :
      (f : A → B) (ds : List A) (xs ys : List B)
      → map f ds ≡ xs ++ ys
      → (us : List A) × (vs : List A) × (ds ≡ us ++ vs) × (map f us ≡ xs) × (map f vs ≡ ys)
  map-eq-append f ds [] ys e = ([], ds, refl, refl, e)
  map-eq-append f [] (x ∷ xs) ys e = cc
  map-eq-append f (d ∷ ds) (x ∷ xs) ys e =
      let (us, vs, p, q, r) = map-eq-append f ds xs ys (cc) in (d ∷ us, vs, ap (◌∷◌ d) p, cc, r)

module _ {ℓ κ} {A : Type ℓ} {B : Type κ} where
  pub map-append : (f : A → B) (xs ys : List A) → map f (xs ++ ys) ≡ map f xs ++ map f ys
  map-append f [] ys = refl
  map-append f (x ∷ xs) ys = ap (◌∷◌ (f x)) (map-append f xs ys)

-- Every element of a list has a property.
abbrev pub All {ℓ κ} : {A : Type ℓ} → (A → Type κ) → List A → Type κ
All P [] = Unit
All P (x ∷ xs) = P x × All P xs

module _ {ℓ κ} {A : Type ℓ} (P : A → Type κ) where
  pub All-append : (xs ys : List A) → All P xs → All P ys → All P (xs ++ ys)
  All-append [] ys h k = k
  All-append (x ∷ xs) ys h k = (h.0, All-append xs ys h.1 k)

  pub All-Occurs : (xs : List A) (x : A) → All P xs → Occurs x xs → P x
  All-Occurs [] x h (i, e) = cc
  All-Occurs (y ∷ xs) x h (zero, e) = let q : y ≡ x = cc in subst P q h.0
  All-Occurs (y ∷ xs) x h (suc i, e) = All-Occurs xs x h.1 (i, e)

module _ {ℓ κ μ} {A : Type ℓ} {B : Type μ} (P : B → Type κ) where
  pub All-map : (f : A → B) → ((a : A) → P (f a)) → (xs : List A) → All P (map f xs)
  All-map f h [] = tt
  All-map f h (x ∷ xs) = (h x, All-map f h xs)
