-- ===== src/Postgres/Keys.antt =====
-- Primary keys of rows, for internal/store/store.go.
use mathlib.Core.Option
use logs_tracker.Prelude.{
  String, ◌≡◌, inl, inr, refl, ap, sym, subst, ◌∙◌, false, Bool-cases, none, some, List, [], ◌∷◌,
  ◌++◌, map, str_eq, arith, eq_iff,
}
use logs_tracker.Postgres.{find_row}

-- No two rows have one value of the primary key.
abbrev pub HasUnique {ℓ} : {A : Type ℓ} → (A → String) → List A → Type ℓ
HasUnique key [] = Unit
HasUnique key (a ∷ rows) = (find_row key (key a) rows ≡ none) × HasUnique key rows

module _ {ℓ} {A : Type ℓ} (key : A → String) where
  pub find_row-snoc :
      (id : String) (a c : A) (rows : List A)
      → find_row key id rows ≡ some c
      → find_row key id (rows ++ a ∷ []) ≡ some c
  unfolding find_row
  find_row-snoc id a c [] e = cc
  find_row-snoc id a c (d ∷ rows) e = elim (Bool-cases (str_eq (key d) id)) [
    | inl t ↦ rw t (rw (find_row, t) at e)
    | inr f ↦ rw f (find_row-snoc id a c rows (rw (find_row, f) at e))
  ]

  find_row_other-snoc :
      (id : String) (a : A) (rows : List A)
      → str_eq (key a) id ≡ false
      → find_row key id rows ≡ none
      → find_row key id (rows ++ a ∷ []) ≡ none
  unfolding find_row
  find_row_other-snoc id a [] f e = rw f refl
  find_row_other-snoc id a (d ∷ rows) f e = elim (Bool-cases (str_eq (key d) id)) [
    | inl t ↦ cc (rw (find_row, t) at e)
    | inr g ↦ rw g (find_row_other-snoc id a rows f (rw (find_row, g) at e))
  ]

  pub HasUnique-snoc :
      (a : A) (rows : List A)
      → find_row key (key a) rows ≡ none
      → HasUnique key rows
      → HasUnique key (rows ++ a ∷ [])
  unfolding find_row
  HasUnique-snoc a [] e h = (refl, tt)
  HasUnique-snoc a (d ∷ rows) e h = elim (Bool-cases (str_eq (key d) (key a))) [
    | inl t ↦ cc (rw (find_row, t) at e)
    | inr f ↦
        let other : str_eq (key a) (key d) ≡ false =
          ground (arith, eq_iff (key d) (key a), eq_iff (key a) (key d)) in
        (
          find_row_other-snoc (key d) a rows other h.0,
          HasUnique-snoc a rows (rw (find_row, f) at e) h.1,
        )
  ]

  -- A change that keeps the keys keeps what is found, and the uniqueness.
  module _ (f : A → A) (same : (a : A) → key (f a) ≡ key a) where
    pub find_row-map :
        (id : String) (rows : List A)
        → find_row key id (map f rows) ≡ Option.map f (find_row key id rows)
    unfolding find_row
    find_row-map id [] = refl
    find_row-map id (a ∷ rows) = elim (Bool-cases (str_eq (key a) id)) [
      | inl t ↦ rw (find_row, same a, t) refl
      | inr n ↦ rw (find_row, same a, n) (find_row-map id rows)
    ]

    pub HasUnique-map : (rows : List A) → HasUnique key rows → HasUnique key (map f rows)
    HasUnique-map [] h = tt
    HasUnique-map (a ∷ rows) h = (
      subst (λ k. find_row key k (map f rows) ≡ none) (sym (same a))
          (find_row-map (key a) rows ∙ ap (Option.map f) h.0),
      HasUnique-map rows h.1,
    )
