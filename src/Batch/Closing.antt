-- ===== src/Batch/Closing.antt =====
-- What closing a batch does in internal/batch/batcher.go, on every branch.
use logs_tracker.Prelude.{
  suc, String, ◌≡◌, ◌≢◌, ◌⊎◌, inl, inr, refl, ap, ◌∙◌, sym, Option, none, some, List, [], ◌∷◌,
  length,
}
use logs_tracker.Errors.{GoError, Result, ok, err, ok-injective, Result-cases}
use logs_tracker.Merkle.{Bytes, Tree, build_tree}
use logs_tracker.Merkle.Payload.{Runtime, compute_record_leaf_hash}
use logs_tracker.Store.{Batch, Record, leaf_hashes, payload_of}
use logs_tracker.Batch.{
  Batcher, Services, Moment, batch_row, checkpoint_object, reset, Closed, dispatch_all,
  anchor_result, anchor, persist, signed, rooted, hashed, close_records, close_current_batch,
}

module _ (rt : Runtime) {S : Type 0} (services : Services S) where
  -- Every step of a close succeeded, from the state `s`, with this result.
  pub record Success (t : Moment) (b : Batcher) (s : S) (result : Closed rt services) : Type 0 where
    pub leaves : List Bytes
    pub tree : Tree
    pub signature : Bytes
    pub version : String
    pub stored : S
    pub content : Bytes
    pub anchored : S
    pub hashes : leaf_hashes rt b.records ≡ ok leaves
    pub built : build_tree rt.sha256 leaves ≡ some tree
    pub signs : services.sign tree.root ≡ ok (signature, version)
    pub stores :
        services.create_batch (batch_row t b tree.root signature version) b.records s
        ≡ (stored, none)
    pub marshals :
        services.marshal_checkpoint (checkpoint_object t b tree.root signature version)
        ≡ some content
    pub anchors : services.put_checkpoint b.current_batch_id content stored ≡ (anchored, none)
    pub outcome : result ≡ (
      reset t b,
      services.batch_closed
          (batch_row t b tree.root signature version)
          (dispatch_all rt services b.alerts_queue anchored),
      none,
    )

  abbrev pub Failure : Batcher → Closed rt services → Type 0
  Failure b result = (s : S) × (e : GoError) × (result ≡ (b, s, some e))

  abbrev pub Outcome : Moment → Batcher → S → Closed rt services → Type 0
  Outcome t b s result = Failure b result ⊎ Success t b s result

  -- The steps from the tree on, one lemma for each.
  module _ (t : Moment) (b : Batcher) (s : S) (leaves : List Bytes) (tree : Tree)
      (signature : Bytes) (version : String) (hashes : leaf_hashes rt b.records ≡ ok leaves)
      (built : build_tree rt.sha256 leaves ≡ some tree)
      (signs : services.sign tree.root ≡ ok (signature, version)) where
    abbrev row : Batch
    row = batch_row t b tree.root signature version

    anchor_cases :
        (stored anchored : S) (content : Bytes) (failed : Option GoError)
        → services.create_batch row b.records s ≡ (stored, none)
        → services.marshal_checkpoint (checkpoint_object t b tree.root signature version)
          ≡ some content
        → services.put_checkpoint b.current_batch_id content stored ≡ (anchored, failed)
        → Outcome t b s (anchor_result rt services t b row (anchored, failed))
    unfolding anchor_result
    anchor_cases stored anchored content (some e) st m a = inl (anchored, _, refl)
    anchor_cases stored anchored content none st m a = inr (record {
      leaves = leaves;
      tree = tree;
      signature = signature;
      version = version;
      stored = stored;
      content = content;
      anchored = anchored;
      hashes = hashes;
      built = built;
      signs = signs;
      stores = st;
      marshals = m;
      anchors = a;
      outcome = refl;
    })

    marshal_cases :
        (stored : S) (o : Option Bytes)
        → services.create_batch row b.records s ≡ (stored, none)
        → services.marshal_checkpoint (checkpoint_object t b tree.root signature version) ≡ o
        → Outcome t b s (anchor rt services t b row stored o)
    unfolding anchor
    marshal_cases stored none st m = inl (stored, _, refl)
    marshal_cases stored (some content) st m =
        let (anchored, failed) = services.put_checkpoint b.current_batch_id content stored in
        anchor_cases stored anchored content failed st m refl

    persist_cases :
        (stored : S) (failed : Option GoError)
        → services.create_batch row b.records s ≡ (stored, failed)
        → Outcome t b s (
            persist rt services t b row
              (checkpoint_object t b tree.root signature version)
              (stored, failed))
    unfolding persist
    persist_cases stored (some e) st = inl (stored, _, refl)
    persist_cases stored none st = marshal_cases stored _ st refl

  signed_cases :
      (t : Moment) (b : Batcher) (s : S) (leaves : List Bytes) (tree : Tree)
      (r : Result (Bytes × String))
      → leaf_hashes rt b.records ≡ ok leaves
      → build_tree rt.sha256 leaves ≡ some tree
      → services.sign tree.root ≡ r
      → Outcome t b s (signed rt services t b s tree.root r)
  unfolding signed
  signed_cases t b s leaves tree (err e) h bt g = inl (s, _, refl)
  signed_cases t b s leaves tree (ok (sig, v)) h bt g =
      let (stored, failed) = services.create_batch (batch_row t b tree.root sig v) b.records s in
      persist_cases t b s leaves tree sig v h bt g stored failed refl

  rooted_cases :
      (t : Moment) (b : Batcher) (s : S) (leaves : List Bytes) (o : Option Tree)
      → leaf_hashes rt b.records ≡ ok leaves
      → build_tree rt.sha256 leaves ≡ o
      → Outcome t b s (rooted rt services t b s o)
  unfolding rooted
  rooted_cases t b s leaves none h bt = inl (s, _, refl)
  rooted_cases t b s leaves (some tree) h bt = signed_cases t b s leaves tree _ h bt refl

  hashed_cases :
      (t : Moment) (b : Batcher) (s : S) (r : Result (List Bytes))
      → leaf_hashes rt b.records ≡ r
      → Outcome t b s (hashed rt services t b s r)
  unfolding hashed
  hashed_cases t b s (err e) h = inl (s, _, refl)
  hashed_cases t b s (ok leaves) h = rooted_cases t b s leaves _ h refl

  close_records_cases :
      (t : Moment) (b : Batcher) (s : S) (rs : List Record)
      → b.records ≡ rs
      → rs ≢ []
      → Outcome t b s (close_records rt services t b s rs)
  unfolding close_records
  close_records_cases t b s [] e n = absurd (n refl)
  close_records_cases t b s (r ∷ rs) e n = hashed_cases t b s (leaf_hashes rt (r ∷ rs)) (rw e)

  -- Closing a batch with records fails and leaves the batcher as it was, or every step succeeds
  -- and the batcher is reset.
  pub close_current_batch_cases :
      (t : Moment) (b : Batcher) (s : S)
      → b.records ≢ []
      → Outcome t b s (close_current_batch rt services t b s)
  unfolding close_current_batch
  close_current_batch_cases t b s n = close_records_cases t b s b.records refl n

module _ (rt : Runtime) where
  -- One leaf hash for each record.
  pub length-leaf_hashes :
      (rs : List Record) (leaves : List Bytes)
      → leaf_hashes rt rs ≡ ok leaves
      → length leaves ≡ length rs
  unfolding leaf_hashes
  length-leaf_hashes [] leaves h = ap length (sym (ok-injective h))
  length-leaf_hashes (r ∷ rs) leaves h =
      elim (Result-cases (compute_record_leaf_hash rt (payload_of rt r))) [
        | inr (e, x) ↦ cc (rw (x, leaf_hashes) at h)
        | inl (d, x) ↦ elim (Result-cases (leaf_hashes rt rs)) [
          | inr (e, y) ↦ cc (rw (x, y, leaf_hashes) at h)
          | inl (ds, y) ↦
              let q : d ∷ ds ≡ leaves = ok-injective (rw (x, y, leaf_hashes) at h) in
              let k : length ds ≡ length rs = length-leaf_hashes rs ds y in
              ap length (sym q) ∙ ap suc k
        ]
      ]
