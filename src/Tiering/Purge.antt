-- ===== src/Tiering/Purge.antt =====
-- What internal/tiering/tiering.go purges, against the archive.
use logs_tracker.Prelude.{
  ◌-◌, ℕ, zero, suc, String, ◌≡◌, ◌≢◌, ◌⊎◌, inl, inr, refl, ap, sym, subst, ◌∙◌, Option, none, some,
  List, [], ◌∷◌, ◌++◌, length, Occurs, eq_iff, arith, str_eq, Bool-cases, Option-cases,
}
use mathlib.Core.List.{append_assoc}
use logs_tracker.Errors.{GoError, Result, ok, err, Result-cases, failure, wrapped}
use logs_tracker.Merkle.{Bytes}
use logs_tracker.Store.{Batch, Record, WormIndexEntry}
use logs_tracker.Tiering.{
  TierResult, Deps, Progress, report_failure, failed, serialize, status_done, purge_done,
  index_done, archive_done, with_records, tier_batch, tier_all, run_once,
}

-- No call but the purge ends a property of the state.
pub record Keeps {S : Type 0} (deps : Deps S) (P : S → Type 0) : Type 0 where
  pub by_archive : (id : String) (c : Bytes) (s : S) → P s → P (deps.put_archive id c s).0
  pub by_index : (e : WormIndexEntry) (s : S) → P s → P (deps.insert_worm_index e s).0
  pub by_update :
      (id status : String) (key : Option String) (s : S)
      → P s
      → P (deps.update_batch_status id status key s).0
  pub by_trigger : (a b c d e f : String) (s : S) → P s → P (deps.trigger a b c d e f s)

module _ {S : Type 0} (deps : Deps S) (P : S → Type 0) (keeps : Keeps deps P) where
  keep_failed : (id : String) (e : GoError) (p : Progress deps) → P p.1 → P (failed deps id e p).1
  unfolding failed report_failure
  keep_failed id e (result, s) h = keeps.by_trigger _ _ _ _ _ _ s h

  keep_serialize :
      (id : String) (rs : List Record) (p : Progress deps) → P p.1 → P (serialize deps id rs p).1.1
  unfolding serialize
  keep_serialize id [] p h = h
  keep_serialize id (r ∷ rs) p h = elim (Option-cases (deps.marshal_record r)) [
    | inl e ↦ rw (serialize, e) (keep_serialize id rs (failed deps id _ p) (keep_failed id _ p h))
    | inr (line, e) ↦ rw (serialize, e) (keep_serialize id rs p h)
  ]

  -- The steps after the archive, for a batch whose purge keeps the property.
  module _ (id : String) (by_purge : (s : S) → P s → P (deps.delete_records id s).0) where
    keep_status_done :
        (n : ℕ) (result : TierResult) (s : S) (e : Option GoError)
        → P s
        → P (status_done deps id n result (s, e)).1
    unfolding status_done
    keep_status_done n result s none h = h
    keep_status_done n result s (some e) h = keep_failed id _ (result, s) h

    keep_purge_done :
        (n : ℕ) (result : TierResult) (s : S) (e : Option GoError)
        → P s
        → P (purge_done deps id n result (s, e)).1
    unfolding purge_done
    keep_purge_done n result s none h =
        keep_status_done n result _ _ (keeps.by_update id "archived" _ s h)
    keep_purge_done n result s (some e) h = keep_failed id _ (result, s) h

    keep_index_done :
        (n : ℕ) (result : TierResult) (s : S) (e : Option GoError)
        → P s
        → P (index_done deps id n result (s, e)).1
    unfolding index_done
    keep_index_done n result s none h = keep_purge_done n result _ _ (by_purge s h)
    keep_index_done n result s (some e) h = keep_failed id _ (result, s) h

    keep_archive_done :
        (n now : ℕ) (result : TierResult) (s : S) (e : Option GoError)
        → P s
        → P (archive_done deps id n now result (s, e)).1
    unfolding archive_done
    keep_archive_done n now result s none h = keep_index_done n result _ _ (keeps.by_index _ s h)
    keep_archive_done n now result s (some e) h = keep_failed id _ (result, s) h

-- The content has the line of a record.
abbrev pub HasLine : Bytes → Bytes → Type 0
HasLine line content = (before : Bytes) × (after : Bytes) × (content ≡ before ++ line ++ 10 ∷ after)

serialize-HasLine :
    {S : Type 0} (deps : Deps S) (id : String) (rs : List Record) (p : Progress deps) (r : Record)
    (line : Bytes)
    → deps.marshal_record r ≡ some line
    → Occurs r rs
    → HasLine line (serialize deps id rs p).0
unfolding serialize
serialize-HasLine deps id [] p r line m (i, e) = cc
serialize-HasLine deps id (q ∷ rs) p r line m (zero, e) =
    let same : q ≡ r = cc in
    let m' : deps.marshal_record q ≡ some line = ap deps.marshal_record same ∙ m in
    rw (serialize, m') ([], (serialize deps id rs p).0, refl)
serialize-HasLine deps id (q ∷ rs) p r line m (suc i, e) =
    elim (Option-cases (deps.marshal_record q)) [
      | inl n ↦
          rw (serialize, n)
            (serialize-HasLine deps id rs
              (failed deps id (wrapped "failed to marshal record" (failure q.id)) p) r line m
              (i, e))
      | inr (l, n) ↦
          let (before, after, split) = serialize-HasLine deps id rs p r line m (i, e) in
          rw (serialize, n)
            (
              l ++ 10 ∷ before,
              after,
              ap (λ c. l ++ 10 ∷ c) split
                  ∙ sym (append_assoc l (10 ∷ before ++ line) (10 ∷ after))
                  ∙ ap (λ c. c ++ 10 ∷ after) (sym (append_assoc l (10 ∷ before) line)),
            )
    ]

-- What the store and the archive promise: a batch's records are listed, a purge removes records of
-- its batch only, an archive that is written without an error holds its content and keeps it.
pub record IsArchiving {S : Type 0} (deps : Deps S) (Stored : Record → S → Type 0)
    (Archived : String → Bytes → S → Type 0) : Type 0 where
  pub lists :
      (r : Record) (rs : List Record) (s : S)
      → deps.records_by_batch_id r.batch_id s ≡ ok rs
      → Stored r s
      → Occurs r rs
  pub archives :
      (id : String) (c : Bytes) (s : S)
      → (deps.put_archive id c s).1 ≡ none
      → Archived id c (deps.put_archive id c s).0
  pub purges_only :
      (id : String) (r : Record) (s : S)
      → r.batch_id ≢ id
      → Stored r s
      → Stored r (deps.delete_records id s).0
  pub purge_keeps :
      (id batch_id : String) (c : Bytes) (s : S)
      → Archived id c s
      → Archived id c (deps.delete_records batch_id s).0
  pub keeps_stored : (r : Record) → Keeps deps (Stored r)
  pub keeps_archived : (id : String) (c : Bytes) → Keeps deps (Archived id c)

module _ {S : Type 0} (deps : Deps S) (Stored : Record → S → Type 0)
    (Archived : String → Bytes → S → Type 0) (archiving : IsArchiving deps Stored Archived)
    (r : Record) (line : Bytes) (marshals : deps.marshal_record r ≡ some line) where
  -- The record is in the store, or an archive object of its batch has its line.
  abbrev pub IsSafe : S → Type 0
  IsSafe s = Stored r s ⊎ ((c : Bytes) × Archived r.batch_id c s × HasLine line c)

  own_archive_done :
      (n now : ℕ) (result : TierResult) (s : S) (c : Bytes) (e : Option GoError)
      → (deps.put_archive r.batch_id c s).1 ≡ e
      → Stored r (deps.put_archive r.batch_id c s).0
      → HasLine line c
      → IsSafe
          (archive_done deps r.batch_id n now result ((deps.put_archive r.batch_id c s).0, e)).1
  unfolding archive_done
  own_archive_done n now result s c (some e) x h l =
      inl (keep_failed deps (Stored r) (archiving.keeps_stored r) r.batch_id _ (result, _) h)
  own_archive_done n now result s c none x h l =
      let k = archiving.keeps_archived r.batch_id c in
      let archived = archiving.archives r.batch_id c s x in
      inr (
        c,
        keep_index_done deps (Archived r.batch_id c) k r.batch_id
            (λ s'. archiving.purge_keeps r.batch_id r.batch_id c s') n result _ _
            (k.by_index _ _ archived),
        l,
      )

  own_batch :
      (now : ℕ) (o : Result (List Record)) (p : Progress deps)
      → deps.records_by_batch_id r.batch_id p.1 ≡ o
      → Stored r p.1
      → IsSafe (with_records deps r.batch_id now o p).1
  unfolding with_records
  own_batch now (err e) p x h =
      inl (keep_failed deps (Stored r) (archiving.keeps_stored r) r.batch_id _ p h)
  own_batch now (ok rs) p x h =
      let k = archiving.keeps_stored r in
      let found = archiving.lists r rs p.1 x h in
      let (content, (result, s)) = serialize deps r.batch_id rs p in
      own_archive_done (length rs) now result s content _ refl
        (k.by_archive r.batch_id content s (keep_serialize deps (Stored r) k r.batch_id rs p h))
        (serialize-HasLine deps r.batch_id rs p r line marshals found)

  -- A property that the purge of a batch keeps, tiering that batch keeps.
  keep_with_records :
      (P : S → Type 0) (keeps : Keeps deps P) (id : String)
      (by_purge : (s : S) → P s → P (deps.delete_records id s).0) (now : ℕ)
      (o : Result (List Record)) (p : Progress deps)
      → P p.1
      → P (with_records deps id now o p).1
  unfolding with_records
  keep_with_records P keeps id by_purge now (err e) p h = keep_failed deps P keeps id _ p h
  keep_with_records P keeps id by_purge now (ok rs) p h =
      let (content, (result, s)) = serialize deps id rs p in
      keep_archive_done deps P keeps id by_purge (length rs) now result _ _
        (keeps.by_archive id content s (keep_serialize deps P keeps id rs p h))

  with_records-IsSafe :
      (id : String) (now : ℕ) (p : Progress deps)
      → IsSafe p.1
      → IsSafe (with_records deps id now (deps.records_by_batch_id id p.1) p).1
  with_records-IsSafe id now p (inr (c, a, l)) = inr (
    c,
    keep_with_records (Archived r.batch_id c) (archiving.keeps_archived r.batch_id c) id
        (λ s. archiving.purge_keeps r.batch_id id c s) now _ p a,
    l,
  )
  with_records-IsSafe id now p (inl h) = elim (Bool-cases (str_eq r.batch_id id)) [
    | inl t ↦
        let same : r.batch_id ≡ id = ground (arith, eq_iff r.batch_id id) in
        subst (λ j. IsSafe (with_records deps j now (deps.records_by_batch_id j p.1) p).1) same
          (own_batch now _ p refl h)
    | inr f ↦
        let other : r.batch_id ≢ id = λ q. ground (arith, eq_iff r.batch_id id) in
        inl (
          keep_with_records (Stored r) (archiving.keeps_stored r) id
            (λ s. archiving.purges_only id r s other) now _ p h)
  ]

  tier_all-IsSafe :
      (clock : String → ℕ) (bs : List Batch) (p : Progress deps)
      → IsSafe p.1
      → IsSafe (tier_all deps clock bs p).1
  unfolding tier_all tier_batch
  tier_all-IsSafe clock [] p h = h
  tier_all-IsSafe clock (b ∷ bs) p h =
      tier_all-IsSafe clock bs (tier_batch deps clock b p)
        (with_records-IsSafe b.id (clock b.id) p h)

  -- A record that marshals and is in the store before a run of the tiering job is in the store
  -- after it, or an archive object of its batch has its line, whatever the calls of the run
  -- return, if the store and the archive keep their promises.
  pub run_once-IsSafe :
      (now window : ℕ) (clock : String → ℕ) (s : S)
      → Stored r s
      → IsSafe (run_once deps now window clock s).1
  unfolding run_once
  run_once-IsSafe now window clock s h =
      elim (Result-cases (deps.batches_for_tiering (now - window) s)) [
        | inr (e, x) ↦ rw (run_once, x) (inl h)
        | inl (bs, x) ↦ rw (run_once, x) (tier_all-IsSafe clock bs _ (inl h))
      ]
