-- ===== src/Batch/Sealing.antt =====
-- The root that internal/batch/batcher.go signs when it closes a batch.
use logs_tracker.Prelude.{
  ◌<◌, String, ◌≡◌, ◌≢◌, ◌⊎◌, inl, inr, refl, ap, ◌∙◌, sym, subst, none, some, List, [], ◌∷◌,
  length, arith,
}
use logs_tracker.Errors.{ok}
use logs_tracker.Merkle.{Bytes, Tree, build_tree}
use logs_tracker.Merkle.Payload.{Runtime}
use logs_tracker.Merkle.Rfc6962.{TreeHash}
use logs_tracker.Merkle.Root.{build_tree-TreeHash}
use logs_tracker.Store.{leaf_hashes}
use logs_tracker.Batch.{Batcher, Services, Moment, batch_row, reset, Closed, close_current_batch}
use logs_tracker.Batch.Closing.{Failure, Success, close_current_batch_cases, length-leaf_hashes}

root-TreeHash :
    (sha256 : Bytes → Bytes) (leaves : List Bytes) (tree : Tree)
    → build_tree sha256 leaves ≡ some tree
    → 0 < length leaves
    → TreeHash sha256 leaves tree.root
root-TreeHash sha256 [] tree e n = absurd (omega (arith, n))
root-TreeHash sha256 (x ∷ rest) tree e n =
    let (t, built, same, is_root) = build_tree-TreeHash sha256 x rest in
    let q : some t ≡ some tree = sym built ∙ e in
    let same_tree : t ≡ tree = cc in
    subst (λ u. TreeHash sha256 (x ∷ rest) u.root) same_tree is_root

length-positive : {A : Type 0} (xs : List A) → xs ≢ [] → 0 < length xs
length-positive [] n = absurd (n refl)
length-positive (x ∷ xs) n = omega arith

module _ (rt : Runtime) {S : Type 0} (services : Services S) where
  -- The root that a successful close signs and stores is the tree hash of the records' leaf
  -- hashes.
  pub record Sealed (t : Moment) (b : Batcher) (s : S) (result : Closed rt services) : Type 0 where
    pub leaves : List Bytes
    pub root : Bytes
    pub signature : Bytes
    pub version : String
    pub stored : S
    pub hashes : leaf_hashes rt b.records ≡ ok leaves
    pub one_each : length leaves ≡ length b.records
    pub is_root : TreeHash rt.sha256 leaves root
    pub signs : services.sign root ≡ ok (signature, version)
    pub stores :
        services.create_batch (batch_row t b root signature version) b.records s ≡ (stored, none)
    pub emptied : result.0 ≡ reset t b
    pub no_error : result.2 ≡ none

  sealed :
      (t : Moment) (b : Batcher) (s : S) (result : Closed rt services)
      → b.records ≢ []
      → Success rt services t b s result
      → Sealed t b s result
  sealed t b s result n w =
      let same = length-leaf_hashes rt b.records w.leaves w.hashes in
      let some_records = length-positive b.records n in
      record {
        leaves = w.leaves;
        root = w.tree.root;
        signature = w.signature;
        version = w.version;
        stored = w.stored;
        hashes = w.hashes;
        one_each = same;
        is_root = root-TreeHash rt.sha256 w.leaves w.tree w.built (omega arith);
        signs = w.signs;
        stores = w.stores;
        emptied = ap (λ r. r.0) w.outcome;
        no_error = ap (λ r. r.2) w.outcome;
      }

  -- Closing a batch that has records returns an error and leaves the batcher as it was, or it
  -- returns no error, resets the batcher, and the batch row given to the store holds a root that
  -- is the RFC 6962 tree hash of the leaf hashes of the batch's records, one for each record in
  -- their order, with the signature of that root.
  pub close_current_batch_lem :
      (t : Moment) (b : Batcher) (s : S)
      → b.records ≢ []
      → Failure rt services b (close_current_batch rt services t b s)
        ⊎ Sealed t b s (close_current_batch rt services t b s)
  close_current_batch_lem t b s n = elim (close_current_batch_cases rt services t b s n) [
    | inl failed ↦ inl failed
    | inr w ↦ inr (sealed t b s _ n w)
  ]
