-- ===== src/Batch/Numbering.antt =====
-- The records of the open batch in internal/batch/batcher.go carry its identifier and their places.
use logs_tracker.Prelude.{
  ℕ, suc, ◌+◌, ◌<◌, String, ◌≡◌, ◌≢◌, ◌⊎◌, inl, inr, refl, ap, ◌∙◌, sym, subst, true, false, none,
  some, List, [], ◌∷◌, ◌++◌, length, length-append, arith, leb, Bool-cases,
}
use logs_tracker.Source.{Position}
use logs_tracker.Merkle.Payload.{Runtime}
use logs_tracker.Store.{Record}
use logs_tracker.Store.Batches.{IsSequence}
use logs_tracker.Batch.{
  Batcher, Services, Moment, numbered, reset, close_records, close_current_batch, add_record,
}
use logs_tracker.Batch.Closing.{close_current_batch_cases}

-- The record at place i has the index i, and all have the identifier of the batch.
abbrev pub IsNumbered : Batcher → Type 0
IsNumbered b = IsSequence b.current_batch_id 0 b.records

IsSequence-snoc :
    (id : String) (n : ℕ) (rs : List Record) (r : Record)
    → IsSequence id n rs
    → r.batch_id ≡ id
    → r.merkle_leaf_index ≡ n + length rs
    → IsSequence id n (rs ++ r ∷ [])
IsSequence-snoc id n [] r h e i = (e, omega arith, tt)
IsSequence-snoc id n (q ∷ rs) r h e i =
    (h.0, h.1, IsSequence-snoc id (suc n) rs r h.2 e (omega arith))

leb-false : (m n : ℕ) → leb m n ≡ false → n < m
leb-false m n e = ground arith

pub records_cases : (rs : List Record) → (rs ≡ []) ⊎ (rs ≢ [])
records_cases [] = inl refl
records_cases (r ∷ rs) = inr (λ e. cc)

-- The buffer that a new record is put in.
abbrev pub buffered : Record → Position → Batcher → Batcher
buffered r pos b = record b { records = b.records ++ numbered b r ∷ []; last_position = pos }

buffered-IsNumbered :
    (r : Record) (pos : Position) (b : Batcher) → IsNumbered b → IsNumbered (buffered r pos b)
buffered-IsNumbered r pos b h =
    IsSequence-snoc b.current_batch_id 0 b.records (numbered b r) h refl (omega arith)

pub buffered-nonempty :
    (r : Record) (pos : Position) (b : Batcher) → (buffered r pos b).records ≢ []
buffered-nonempty r pos b e =
    omega (arith, ap length e, length-append b.records (numbered b r ∷ []))

module _ (rt : Runtime) {S : Type 0} (services : Services S) where
  close_records-empty :
      (t : Moment) (b : Batcher) (s : S) (rs : List Record)
      → rs ≡ []
      → close_records rt services t b s rs
        ≡ (record b { started_at = t.reopened_at; timer_set = true }, s, none)
  unfolding close_records
  close_records-empty t b s [] e = refl
  close_records-empty t b s (r ∷ rs) e = cc

  -- Closing a batch without records restarts its clock and does nothing else.
  pub close_empty :
      (t : Moment) (b : Batcher) (s : S)
      → b.records ≡ []
      → close_current_batch rt services t b s
        ≡ (record b { started_at = t.reopened_at; timer_set = true }, s, none)
  unfolding close_current_batch
  close_empty t b s e = close_records-empty t b s b.records e

  pub close-IsNumbered :
      (t : Moment) (b : Batcher) (s : S)
      → IsNumbered b
      → IsNumbered (close_current_batch rt services t b s).0
  unfolding reset
  close-IsNumbered t b s h = elim (records_cases b.records) [
    | inl e ↦ subst (λ r. IsNumbered r.0) (sym (close_empty t b s e)) h
    | inr n ↦ elim (close_current_batch_cases rt services t b s n) [
      | inl f ↦ subst (λ r. IsNumbered r.0) (sym f.2) h
      | inr w ↦ subst (λ r. IsNumbered r.0) (sym w.outcome) tt
    ]
  ]

  -- If the records of a batch carry its identifier and their places in the buffer, counted from
  -- 0, then they do so after a record is added, whether the batch is closed or not.
  pub add_record-IsNumbered :
      (t : Moment) (r : Record) (pos : Position) (b : Batcher) (s : S)
      → IsNumbered b
      → IsNumbered (add_record rt services t r pos b s).0
  unfolding add_record
  add_record-IsNumbered t r pos b s h =
      let k = buffered-IsNumbered r pos b h in
      elim (Bool-cases (leb b.cfg.max_events (length (buffered r pos b).records))) [
        | inl f ↦ rw f (close-IsNumbered t (buffered r pos b) s k)
        | inr f ↦ rw f k
      ]

  close-max_events :
      (t : Moment) (b : Batcher) (s : S) (limit : ℕ)
      → 0 < limit
      → b.records ≢ []
      → (close_current_batch rt services t b s).2 ≡ none
      → length (close_current_batch rt services t b s).0.records < limit
  unfolding reset
  close-max_events t b s limit p n e = elim (close_current_batch_cases rt services t b s n) [
    | inl f ↦ let q : some f.1 ≡ none = sym (ap (λ r. r.2) f.2) ∙ e in cc
    | inr w ↦ subst (λ r. length r.0.records < limit) (sym w.outcome) p
  ]

  -- The number of buffered records is below the limit after each addition that returns no error,
  -- if the limit is positive.
  pub add_record-max_events :
      (t : Moment) (r : Record) (pos : Position) (b : Batcher) (s : S)
      → 0 < b.cfg.max_events
      → (add_record rt services t r pos b s).2 ≡ none
      → length (add_record rt services t r pos b s).0.records < b.cfg.max_events
  unfolding add_record
  add_record-max_events t r pos b s p e =
      elim (Bool-cases (leb b.cfg.max_events (length (buffered r pos b).records))) [
        | inl f ↦ rw f (
            close-max_events t (buffered r pos b) s b.cfg.max_events p (buffered-nonempty r pos b)
              (rw f at e))
        | inr f ↦ rw f (leb-false b.cfg.max_events (length (buffered r pos b).records) f)
      ]
