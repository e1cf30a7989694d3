-- ===== src/Postgres/Atomic.antt =====
-- The transaction of CreateBatch of PostgresStore in internal/store/store.go.
use mathlib.Core.List.{append-nil, append_assoc}
use logs_tracker.Prelude.{
  ℕ, suc, ◌≡◌, ◌⊎◌, inl, inr, refl, ap, sym, subst, ◌∙◌, true, Bool-cases, Option, none, some,
  Option-cases, List, [], ◌∷◌, ◌++◌, map,
}
use logs_tracker.Errors.{GoError, wrapped, Result, ok, err, ok-injective, Result-cases}
use logs_tracker.Store.{Batch, Record}
use logs_tracker.Postgres.{
  Tables, Columns, Faults, Commit, done, refused, unanswered, unless_failed, find_batch,
  find_record, stored_batch, stored_record, insert_batch, insert_record, insert_records,
  commit_transaction, commit_records, insert_prepared, insert_rest, insert_begun, create_batch,
}

-- The statements succeeded and were committed; an error only reports that no answer came.
abbrev pub Written : Faults → Tables → Tables × Option GoError → Type 0
Written f u result =
    (result ≡ (u, none))
    ⊎ ((e : GoError) × (f.commit ≡ unanswered e)
        × (result ≡ (u, some (wrapped "failed to commit batch transaction" e))))

abbrev pub Unchanged : Tables → Tables × Option GoError → Type 0
Unchanged t result = (e : GoError) × (result ≡ (t, some e))

pub unless_failed-ok {ℓ} :
    {A : Type ℓ} (fault : Option GoError) (r : Result A) {a : A}
    → unless_failed fault r ≡ ok a
    → r ≡ ok a
unless_failed-ok none r e = e
unless_failed-ok (some x) r e = cc

module _ (columns : Columns) where
  -- The tables with a batch and its records.
  abbrev pub extended : Batch → List Record → Tables → Tables
  extended b rs t = record t {
    audit_batches = t.audit_batches ++ stored_batch columns b ∷ [];
    audit_records = t.audit_records ++ map (stored_record columns) rs;
  }

  -- What a statement that succeeds has found, and what it leaves.
  pub insert_batch-ok :
      (b : Batch) (t t' : Tables)
      → insert_batch columns b t ≡ ok t'
      → (find_batch b.id t.audit_batches ≡ none)
        × (columns.fit_batch b ≡ true)
        × (record t { audit_batches = t.audit_batches ++ stored_batch columns b ∷ [] } ≡ t')
  unfolding insert_batch
  insert_batch-ok b t t' e = elim (Option-cases (find_batch b.id t.audit_batches)) [
    | inr (other, h) ↦ cc (rw (insert_batch, h) at e)
    | inl h ↦ elim (Bool-cases (columns.fit_batch b)) [
      | inl fits ↦ (h, fits, ok-injective (rw (insert_batch, h, fits) at e))
      | inr misfit ↦ cc (rw (insert_batch, h, misfit) at e)
    ]
  ]

  pub insert_record-ok :
      (r : Record) (t t' : Tables)
      → insert_record columns r t ≡ ok t'
      → (find_record r.id t.audit_records ≡ none)
        × ((b : Batch) × (find_batch r.batch_id t.audit_batches ≡ some b))
        × (record t { audit_records = t.audit_records ++ stored_record columns r ∷ [] } ≡ t')
  unfolding insert_record
  insert_record-ok r t t' e = elim (Option-cases (find_record r.id t.audit_records)) [
    | inr (other, h) ↦ cc (rw (insert_record, h) at e)
    | inl h ↦ elim (Option-cases (find_batch r.batch_id t.audit_batches)) [
      | inl k ↦ cc (rw (insert_record, h, k) at e)
      | inr (b, k) ↦ elim (Bool-cases (columns.fit_record (stored_record columns r))) [
        | inl fits ↦ (h, (b, k), ok-injective (rw (insert_record, h, k, fits) at e))
        | inr misfit ↦ cc (rw (insert_record, h, k, misfit) at e)
      ]
    ]
  ]

  -- One turn of the loop.
  pub insert_records-cons :
      (f : Faults) (i : ℕ) (r : Record) (rs : List Record) (t t' : Tables)
      → insert_records columns f i (r ∷ rs) t ≡ ok t'
      → (u : Tables) × (insert_record columns r t ≡ ok u)
        × (insert_records columns f (suc i) rs u ≡ ok t')
  unfolding insert_records
  insert_records-cons f i r rs t t' e = elim (Option-cases (f.record_insert i)) [
    | inr (x, h) ↦ cc (rw (insert_records, h) at e)
    | inl h ↦ elim (Result-cases (insert_record columns r t)) [
      | inr (x, k) ↦ cc (rw (insert_records, h, k) at e)
      | inl (u, k) ↦ (u, k, rw (insert_records, h, k) at e)
    ]
  ]

  insert_records-ok :
      (f : Faults) (i : ℕ) (rs : List Record) (t t' : Tables)
      → insert_records columns f i rs t ≡ ok t'
      → record t { audit_records = t.audit_records ++ map (stored_record columns) rs } ≡ t'
  unfolding insert_records
  insert_records-ok f i [] t t' e =
      ap (λ rows. record t { audit_records = rows }) (append-nil t.audit_records) ∙ ok-injective e
  insert_records-ok f i (r ∷ rs) t t' e =
      let (u, one, more) = insert_records-cons f i r rs t t' e in
      let (absent, parent, first) = insert_record-ok r t u one in
      let rest = insert_records-ok f (suc i) rs u t' more in
      let stored = stored_record columns r in
      ap (λ rows. record t { audit_records = rows })
        (sym (append_assoc t.audit_records (stored ∷ []) (map (stored_record columns) rs)))
      ∙ ap
          (λ (v : Tables). record v {
            audit_records = v.audit_records ++ map (stored_record columns) rs;
          })
          first
      ∙ rest

  module _ (f : Faults) (b : Batch) (rs : List Record) (t : Tables) where
    abbrev pub Attempted : Tables × Option GoError → Type 0
    Attempted result =
        Unchanged t result
        ⊎ ((t' u : Tables) × (insert_batch columns b t ≡ ok t')
            × (insert_records columns f 0 rs t' ≡ ok u)
            × Written f u result)

    commit_cases :
        (u : Tables) (c : Commit)
        → f.commit ≡ c
        → Unchanged t (commit_transaction columns t u c)
          ⊎ Written f u (commit_transaction columns t u c)
    unfolding commit_transaction
    commit_cases u done e = inr (inl refl)
    commit_cases u (refused x) e = inl (_, refl)
    commit_cases u (unanswered x) e = inr (inr (x, e, refl))

    insert_prepared_attempt :
        (t' : Tables) (p : Option GoError)
        → insert_batch columns b t ≡ ok t'
        → Attempted (insert_prepared columns f rs t t' p)
    unfolding insert_prepared commit_records
    insert_prepared_attempt t' (some x) first = inl (_, refl)
    insert_prepared_attempt t' none first = elim (Result-cases (insert_records columns f 0 rs t')) [
      | inr (x, k) ↦ inl (x, rw k refl)
      | inl (u, k) ↦ elim (commit_cases u f.commit refl) [
        | inl n ↦ inl (rw k n)
        | inr w ↦ inr (t', u, first, k, rw k w)
      ]
    ]

    insert_rest_attempt :
        (o : Result Tables)
        → ((t' : Tables) → o ≡ ok t' → insert_batch columns b t ≡ ok t')
        → Attempted (insert_rest columns f rs t o)
    unfolding insert_rest
    insert_rest_attempt (err x) same = inl (_, refl)
    insert_rest_attempt (ok t') same = insert_prepared_attempt t' f.prepare (same t' refl)

    insert_begun_attempt : (o : Option GoError) → Attempted (insert_begun columns f b rs t o)
    unfolding insert_begun
    insert_begun_attempt (some x) = inl (_, refl)
    insert_begun_attempt none =
        insert_rest_attempt _ (λ t'. unless_failed-ok f.batch_insert (insert_batch columns b t))

    pub create_batch_attempt : Attempted (create_batch columns f b rs t)
    unfolding create_batch
    create_batch_attempt = insert_begun_attempt f.begin

    pub written :
        (t' u : Tables)
        → insert_batch columns b t ≡ ok t'
        → insert_records columns f 0 rs t' ≡ ok u
        → u ≡ extended b rs t
    written t' u first rest =
        sym (insert_records-ok f 0 rs t' u rest)
        ∙ ap
            (λ (v : Tables). record v {
              audit_records = v.audit_records ++ map (stored_record columns) rs;
            })
            (sym (insert_batch-ok b t t' first).2)

    -- Whatever call of it fails, CreateBatch returns an error and leaves the tables as they were,
    -- or it leaves them with the batch and all its records, and then it returns an error only if
    -- the commit was done and its answer lost.
    pub create_batch_lem :
        Unchanged t (create_batch columns f b rs t)
        ⊎ Written f (extended b rs t) (create_batch columns f b rs t)
    create_batch_lem = elim create_batch_attempt [
      | inl n ↦ inl n
      | inr (t', u, first, rest, w) ↦
          inr (subst (λ v. Written f v (create_batch columns f b rs t)) (written t' u first rest) w)
    ]
