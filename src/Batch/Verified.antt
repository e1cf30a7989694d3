-- ===== src/Batch/Verified.antt =====
-- From a batch that internal/batch/batcher.go closes to the verifier of internal/merkle/verifier.go,
-- over the MemoryStore of internal/store/store.go.
use logs_tracker.Prelude.{
  ℕ, zero, suc, String, ◌≡◌, ◌≢◌, refl, ap, sym, ◌∙◌, subst, Bool, true, Option, none, some, List,
  [], ◌∷◌, get_elem?, arith, eq_iff, inl, inr,
}
use logs_tracker.Prelude.Dict.{get, put, get-put}
use logs_tracker.Errors.{GoError, Result, ok, Result-cases, ok-injective}
use logs_tracker.Merkle.{Bytes, Tree, build_tree}
use logs_tracker.Merkle.Payload.{Runtime, compute_record_leaf_hash}
use logs_tracker.Merkle.Verifier.{verify_record}
use logs_tracker.Merkle.Records.{verify_record_complete}
use logs_tracker.Store.{
  Batch, Record, MemoryStore, create_batch, put_records, payload_of, leaf_hashes, all_leaves,
  get_records_by_batch_id, get_record_for_verification,
}
use logs_tracker.Store.Batches.{
  IsFresh, IsSequence, get_records-put_records, get-put_records, IsSequence-get_elem?,
}
use logs_tracker.Batch.{
  CheckpointObject, Batcher, Services, Moment, Closed, batch_row, close_current_batch,
}
use logs_tracker.Batch.Closing.{Success, close_current_batch_cases}
use logs_tracker.Batch.Kept.{dispatch_all-silent}
use logs_tracker.Batch.Numbering.{IsNumbered}
use logs_tracker.Batch.InMemory.{in_memory}

module _ (rt : Runtime) where
  leaf_hashes-cons :
      (q : Record) (rs : List Record) (leaves : List Bytes)
      → leaf_hashes rt (q ∷ rs) ≡ ok leaves
      → (d : Bytes) × (ds : List Bytes) × (compute_record_leaf_hash rt (payload_of rt q) ≡ ok d)
        × (leaf_hashes rt rs ≡ ok ds)
        × (d ∷ ds ≡ leaves)
  unfolding leaf_hashes
  leaf_hashes-cons q rs leaves h =
      elim (Result-cases (compute_record_leaf_hash rt (payload_of rt q))) [
        | inr (x, k) ↦ cc (rw (k, leaf_hashes) at h)
        | inl (d, k) ↦ elim (Result-cases (leaf_hashes rt rs)) [
          | inr (x, l) ↦ cc (rw (k, l, leaf_hashes) at h)
          | inl (ds, l) ↦ (d, ds, k, l, ok-injective (rw (k, l, leaf_hashes) at h))
        ]
      ]

  leaf_hashes-get_elem? :
      (i : ℕ) (r : Record) (rs : List Record) (leaves : List Bytes)
      → leaf_hashes rt rs ≡ ok leaves
      → get_elem? rs i ≡ some r
      → (leaf : Bytes) × (compute_record_leaf_hash rt (payload_of rt r) ≡ ok leaf)
        × (get_elem? leaves i ≡ some leaf)
  leaf_hashes-get_elem? i r [] leaves h e = cc
  leaf_hashes-get_elem? zero r (q ∷ rs) leaves h e =
      let (d, ds, k, l, split) = leaf_hashes-cons q rs leaves h in
      let same : q ≡ r = cc in
      (
        d,
        subst (λ u. compute_record_leaf_hash rt (payload_of rt u) ≡ ok d) same k,
        subst (λ u. get_elem? u 0 ≡ some d) split refl,
      )
  leaf_hashes-get_elem? (suc i) r (q ∷ rs) leaves h e =
      let (d, ds, k, l, split) = leaf_hashes-cons q rs leaves h in
      let (leaf, hashed, at) = leaf_hashes-get_elem? i r rs ds l e in
      (leaf, hashed, subst (λ u. get_elem? u (suc i) ≡ some leaf) split at)

  all_leaves-leaf_hashes :
      (rs : List Record) (leaves : List Bytes)
      → leaf_hashes rt rs ≡ ok leaves
      → all_leaves rt rs ≡ ok leaves
  unfolding all_leaves leaf_hashes
  all_leaves-leaf_hashes [] leaves h = h
  all_leaves-leaf_hashes (r ∷ rs) leaves h =
      let (d, ds, k, l, split) = leaf_hashes-cons r rs leaves h in
      rw (all_leaves, k, all_leaves-leaf_hashes rs ds l) (ap ok split)

module _ (rt : Runtime) where
  -- What the store gives the verifier for a record of the created batch.
  created-get_record_for_verification :
      (row : Batch) (rs : List Record) (leaves : List Bytes) (s : MemoryStore) (r : Record)
      → get r.id (put_records rs s.records) ≡ some r
      → r.batch_id ≡ row.id
      → get_records_by_batch_id row.id (create_batch row rs s) ≡ rs
      → leaf_hashes rt rs ≡ ok leaves
      → get_record_for_verification rt r.id (create_batch row rs s)
        ≡ ok (
          payload_of rt r,
          record {
            batch_id = row.id;
            merkle_root = row.merkle_root;
            signature = row.signature;
            key_version = row.key_version;
            all_leaf_hashes = leaves;
            proof = [];
          },
        )
  unfolding get_record_for_verification create_batch
  created-get_record_for_verification row rs leaves s r there same listed hashed =
      let stored : get row.id (put row.id row s.batches) ≡ some row =
        ground (arith, get-put row.id row.id row s.batches, eq_iff row.id row.id) in
      rw (there, same, stored, listed, all_leaves-leaf_hashes rt rs leaves hashed) refl

  -- The verifier finds a record valid whose batch was created with the tree of its records' leaf
  -- hashes and a signature of the root.
  pub created-valid :
      (verify : Bytes → Bytes → String → Result Bool) (row : Batch) (rs : List Record)
      (s : MemoryStore) (leaves : List Bytes) (tree : Tree) (now i : ℕ) (r : Record)
      → row.merkle_root ≡ tree.root
      → verify row.merkle_root row.signature row.key_version ≡ ok true
      → leaf_hashes rt rs ≡ ok leaves
      → build_tree rt.sha256 leaves ≡ some tree
      → IsSequence row.id 0 rs
      → IsFresh rs s.records
      → get_records_by_batch_id row.id s ≡ []
      → get_elem? rs i ≡ some r
      → (verify_record rt verify now r.id
          (get_record_for_verification rt r.id (create_batch row rs s))).0.valid
        ≡ true
  unfolding create_batch
  created-valid verify row rs s leaves tree now i r root signed hashes built numbered fresh empty
        at =
      let (same, index) = IsSequence-get_elem? row.id 0 i rs r numbered at in
      let listed =
        get_records-put_records row.id rs s (create_batch row rs s) empty numbered fresh refl in
      let fetched =
        created-get_record_for_verification row rs leaves s r
          (get-put_records i r rs s.records at fresh) same listed hashes in
      let (leaf, hashed, leaf_at) = leaf_hashes-get_elem? rt i r rs leaves hashes at in
      let place : i ≡ r.merkle_leaf_index = omega (arith, index) in
      let leaf_there = subst (λ k. get_elem? leaves k ≡ some leaf) place leaf_at in
      subst (λ u. (verify_record rt verify now r.id u).0.valid ≡ true) (sym fetched)
        (verify_record_complete rt verify now r.id (payload_of rt r) _ leaf tree signed hashed
          leaf_there built root refl)

module _ (rt : Runtime) (sign : Bytes → Result (Bytes × String))
    (marshal : CheckpointObject → Option Bytes) (write : String → Bytes → Option GoError) where
  abbrev services : Services MemoryStore
  services = in_memory sign marshal write

  -- A successful close has created the batch in the store, and changed nothing else there.
  Success-create_batch :
      (t : Moment) (b : Batcher) (s : MemoryStore) (result : Closed rt services)
      (w : Success rt services t b s result)
      → result.1 ≡ create_batch (batch_row t b w.tree.root w.signature w.version) b.records s
  Success-create_batch t b s result w =
      ap (λ r. r.1) w.outcome
      ∙ dispatch_all-silent rt services (λ a u. refl) b.alerts_queue w.anchored
      ∙ sym (ap (λ r. r.0) w.anchors)
      ∙ sym (ap (λ r. r.0) w.stores)

  module _ (verify : Bytes → Bytes → String → Result Bool)
      (accepts : (digest signature : Bytes) (version : String)
        → sign digest ≡ ok (signature, version)
        → verify digest signature version ≡ ok true) where
    -- If closing a batch returns no error, the records of the batch are numbered, their
    -- identifiers are new to the store, and the store had no record of the batch, then each record
    -- of the batch, fetched from the store, is reported as valid by the verifier, whose signer
    -- accepts what the batcher's signer signs.
    pub close_current_batch-valid :
        (t : Moment) (b : Batcher) (s : MemoryStore) (now i : ℕ) (r : Record)
        → (close_current_batch rt services t b s).2 ≡ none
        → IsNumbered b
        → IsFresh b.records s.records
        → get_records_by_batch_id b.current_batch_id s ≡ []
        → get_elem? b.records i ≡ some r
        → (verify_record rt verify now r.id
            (get_record_for_verification rt r.id (close_current_batch rt services t b s).1)).0.valid
          ≡ true
    unfolding batch_row
    close_current_batch-valid t b s now i r n numbered fresh empty at =
        let some_records : b.records ≢ [] =
          λ e. (let q : get_elem? [] i ≡ some r = subst (λ u. get_elem? u i ≡ some r) e at in cc) in
        elim (close_current_batch_cases rt services t b s some_records) [
          | inl f ↦ let failed : some f.1 ≡ none = sym (ap (λ u. u.2) f.2) ∙ n in cc
          | inr w ↦
              subst
                (λ u.
                  (verify_record rt verify now r.id (get_record_for_verification rt r.id u)).0.valid
                  ≡ true)
                (sym (Success-create_batch t b s _ w))
                (created-valid rt verify (batch_row t b w.tree.root w.signature w.version) b.records
                  s w.leaves w.tree now i r refl (accepts w.tree.root w.signature w.version w.signs)
                  w.hashes w.built numbered fresh empty at)
        ]
