-- ===== src/Tiering/Complete.antt =====
-- A run of internal/tiering/tiering.go without errors.
use logs_tracker.Prelude.{
  ◌-◌, ◌+◌, ℕ, suc, String, ◌≡◌, refl, ap, sym, ◌∙◌, subst, Option, Option-cases, inl, inr, none,
  some, List, [], ◌∷◌, ◌++◌, length, arith,
}
use logs_tracker.Errors.{GoError, Result, ok, err, ok-injective, Result-cases}
use logs_tracker.Merkle.{Bytes}
use logs_tracker.Store.{Batch, Record}
use logs_tracker.Tiering.{
  TierResult, Deps, Progress, archive_key, worm_entry, failed, serialize, status_done, purge_done,
  index_done, archive_done, with_records, tier_batch, tier_all, run_once,
}

-- An error that was noted stays.
append-ne-empty {ℓ} : {A : Type ℓ} (xs : List A) (x : A) → xs ++ x ∷ [] ≡ [] → ⊥
append-ne-empty [] x e = cc
append-ne-empty (y ∷ xs) x e = cc

module _ {S : Type 0} (deps : Deps S) where
  failed-errors :
      (id : String) (e : GoError) (p : Progress deps) → (failed deps id e p).0.errors ≡ [] → ⊥
  unfolding failed
  failed-errors id e (result, s) h = append-ne-empty result.errors e h

  -- One line for each record, if they all marshal.
  abbrev line_before : Option Bytes → Option Bytes → Option Bytes
  line_before none rest = none
  line_before (some line) none = none
  line_before (some line) (some rest) = some (line ++ 10 ∷ rest)

  abbrev pub lines : List Record → Option Bytes
  lines [] = some []
  lines (r ∷ rs) = line_before (deps.marshal_record r) (lines rs)

  -- The calls that tier a batch, in their order, each without an error: its records are read, an
  -- archive object with their lines is put, the batch is entered in the index, its records are
  -- purged, and it is marked as archived. The states between are those that the calls leave.
  abbrev IsMarked : S × Option GoError → S → Type 0
  IsMarked o s' = o ≡ (s', none)

  abbrev IsPurged : String → S × Option GoError → S → Type 0
  IsPurged id o s' =
      (s : S) × (o ≡ (s, none))
      × IsMarked (deps.update_batch_status id "archived" (some (archive_key id)) s) s'

  abbrev IsIndexed : String → S × Option GoError → S → Type 0
  IsIndexed id o s' = (s : S) × (o ≡ (s, none)) × IsPurged id (deps.delete_records id s) s'

  abbrev IsArchived : String → ℕ → S × Option GoError → S → Type 0
  IsArchived id now o s' =
      (s : S) × (o ≡ (s, none)) × IsIndexed id (deps.insert_worm_index (worm_entry id now) s) s'

  abbrev pub IsTiered : String → ℕ → S → S → Type 0
  IsTiered id now s s' =
      (rs : List Record) × (content : Bytes) × (deps.records_by_batch_id id s ≡ ok rs)
      × (lines rs ≡ some content)
      × IsArchived id now (deps.put_archive id content s) s'

  -- One batch after the other.
  abbrev pub AreTiered : (String → ℕ) → List Batch → S → S → Type 0
  AreTiered clock [] s s' = s ≡ s'
  AreTiered clock (b ∷ bs) s s' =
      (next : S) × IsTiered b.id (clock b.id) s next × AreTiered clock bs next s'

  -- Without an error all records were written, and nothing else was done.
  serialize-lines :
      (id : String) (rs : List Record) (p : Progress deps)
      → (serialize deps id rs p).1.0.errors ≡ []
      → (lines rs ≡ some (serialize deps id rs p).0) × ((serialize deps id rs p).1 ≡ p)
  unfolding serialize
  serialize-lines id [] p h = (refl, refl)
  serialize-lines id (r ∷ rs) p h = elim (Option-cases (deps.marshal_record r)) [
    | inr (line, e) ↦
        let (all, same) = serialize-lines id rs p (rw (serialize, e) at h) in
        rw (serialize, e) (ap (line_before (some line)) all, same)
    | inl e ↦
        let more = rw (serialize, e) at h in
        let same = (serialize-lines id rs (failed deps id _ p) more).1 in
        absurd (failed-errors id _ p (ap (λ (x : Progress deps). x.0.errors) (sym same) ∙ more))
  ]

  abbrev IsCounted : TierResult → TierResult → Type 0
  IsCounted before result =
      (before.errors ≡ []) × (result.batches_tiered ≡ suc before.batches_tiered)

  status_done-IsMarked :
      (id : String) (n : ℕ) (result : TierResult) (o : S × Option GoError)
      → (status_done deps id n result o).0.errors ≡ []
      → IsCounted result (status_done deps id n result o).0
        × IsMarked o (status_done deps id n result o).1
  unfolding status_done
  status_done-IsMarked id n result (s, some e) h = absurd (failed-errors id _ (result, s) h)
  status_done-IsMarked id n result (s, none) h = ((h, refl), refl)

  purge_done-IsPurged :
      (id : String) (n : ℕ) (result : TierResult) (o : S × Option GoError)
      → (purge_done deps id n result o).0.errors ≡ []
      → IsCounted result (purge_done deps id n result o).0
        × IsPurged id o (purge_done deps id n result o).1
  unfolding purge_done
  purge_done-IsPurged id n result (s, some e) h = absurd (failed-errors id _ (result, s) h)
  purge_done-IsPurged id n result (s, none) h =
      let (counted, marked) = status_done-IsMarked id n result _ h in (counted, (s, refl, marked))

  index_done-IsIndexed :
      (id : String) (n : ℕ) (result : TierResult) (o : S × Option GoError)
      → (index_done deps id n result o).0.errors ≡ []
      → IsCounted result (index_done deps id n result o).0
        × IsIndexed id o (index_done deps id n result o).1
  unfolding index_done
  index_done-IsIndexed id n result (s, some e) h = absurd (failed-errors id _ (result, s) h)
  index_done-IsIndexed id n result (s, none) h =
      let (counted, purged) = purge_done-IsPurged id n result _ h in (counted, (s, refl, purged))

  archive_done-IsArchived :
      (id : String) (n now : ℕ) (result : TierResult) (o : S × Option GoError)
      → (archive_done deps id n now result o).0.errors ≡ []
      → IsCounted result (archive_done deps id n now result o).0
        × IsArchived id now o (archive_done deps id n now result o).1
  unfolding archive_done
  archive_done-IsArchived id n now result (s, some e) h = absurd (failed-errors id _ (result, s) h)
  archive_done-IsArchived id n now result (s, none) h =
      let (counted, indexed) = index_done-IsIndexed id n result _ h in (counted, (s, refl, indexed))

  with_records-IsTiered :
      (id : String) (now : ℕ) (o : Result (List Record)) (p : Progress deps)
      → deps.records_by_batch_id id p.1 ≡ o
      → (with_records deps id now o p).0.errors ≡ []
      → IsCounted p.0 (with_records deps id now o p).0
        × IsTiered id now p.1 (with_records deps id now o p).1
  unfolding with_records
  with_records-IsTiered id now (err e) p read h = absurd (failed-errors id _ p h)
  with_records-IsTiered id now (ok rs) p read h =
      let content = (serialize deps id rs p).0 in
      let q = (serialize deps id rs p).1 in
      let (counted, archived) =
        archive_done-IsArchived id (length rs) now q.0 (deps.put_archive id content q.1) h in
      let (all, same) = serialize-lines id rs p counted.0 in
      (
        subst (λ x. IsCounted x (with_records deps id now (ok rs) p).0)
            (ap (λ (x : Progress deps). x.0) same) counted,
        (
          rs,
          content,
          read,
          all,
          subst
              (λ x.
                IsArchived id now (deps.put_archive id content x)
                  (with_records deps id now (ok rs) p).1)
              (ap (λ (x : Progress deps). x.1) same) archived,
        ),
      )

  tier_all-AreTiered :
      (clock : String → ℕ) (bs : List Batch) (p : Progress deps)
      → (tier_all deps clock bs p).0.errors ≡ []
      → (p.0.errors ≡ [])
        × ((tier_all deps clock bs p).0.batches_tiered ≡ p.0.batches_tiered + length bs)
        × AreTiered clock bs p.1 (tier_all deps clock bs p).1
  unfolding tier_all tier_batch
  tier_all-AreTiered clock [] p h = (h, omega arith, refl)
  tier_all-AreTiered clock (b ∷ bs) p h =
      let next = tier_batch deps clock b p in
      let (none_then, count, tiered) = tier_all-AreTiered clock bs next h in
      let ((none_before, one), first) =
        with_records-IsTiered b.id (clock b.id) (deps.records_by_batch_id b.id p.1) p refl
          none_then in
      (none_before, omega (arith, count, one), (next.1, first, tiered))

  -- A run that ends without an error has found the batches that were due, and has tiered each.
  pub run_once_complete :
      (now window : ℕ) (clock : String → ℕ) (s : S) (result : TierResult)
      → (run_once deps now window clock s).0 ≡ ok result
      → result.errors ≡ []
      → (bs : List Batch) × (deps.batches_for_tiering (now - window) s ≡ ok bs)
        × (result.batches_tiered ≡ length bs)
        × AreTiered clock bs s (run_once deps now window clock s).1
  unfolding run_once
  run_once_complete now window clock s result e n =
      elim (Result-cases (deps.batches_for_tiering (now - window) s)) [
        | inr (x, q) ↦ cc (rw (run_once, q) at e)
        | inl (bs, q) ↦
            let zero_result : TierResult = record {
              batches_tiered = 0;
              records_purged = 0;
              errors = [];
            } in
            let same : (tier_all deps clock bs (zero_result, s)).0 ≡ result =
              ok-injective (rw (run_once, q) at e) in
            let (start, count, tiered) =
              tier_all-AreTiered clock bs (zero_result, s)
                (ap (λ (x : TierResult). x.errors) same ∙ n) in
            (
              bs,
              q,
              ap (λ (x : TierResult). x.batches_tiered) (sym same) ∙ count ∙ omega arith,
              rw (run_once, q) tiered,
            )
      ]
