-- ===== src/Examples/Trees.antt =====
-- The theorems on internal/merkle at a batch of three records.
use logs_tracker.Prelude.{
  ◌≤◌, arith, ◌++◌, ℕ, zero, suc, ◌+◌, String, ◌≡◌, ◌⊎◌, refl, Bool, true, false, none, some, List,
  [], ◌∷◌, map, length, Occurs,
}
use logs_tracker.Prelude.Int.{pos}
use logs_tracker.Errors.{Result, ok}
use logs_tracker.Merkle.{
  Bytes, ProofNode, Tree, first, hash_leaf, hash_interior, next_level, build_levels, build_tree,
  climb, generate_proof, equal_bytes, verify_proof,
}
use logs_tracker.Merkle.Payload.{
  RecordCanonicalPayload, Runtime, normalize, compute_record_leaf_hash,
}
use logs_tracker.Merkle.Rfc6962.{TreeHash}
use logs_tracker.Merkle.Height.{build_tree-height}
use logs_tracker.Merkle.Root.{build_tree-TreeHash}
use logs_tracker.Merkle.Inclusion.{verify_proof-generate_proof}
use logs_tracker.Merkle.Collisions.{Collision}
use logs_tracker.Merkle.Binding.{build_tree-injective}
use logs_tracker.Merkle.Soundness.{verify_proof_sound}
use logs_tracker.Merkle.Records.{verify_record_sound, verify_record_complete}
use logs_tracker.Merkle.Verifier.{BatchVerificationData, verify_record}

abbrev pub zeros : ℕ → Bytes
zeros zero = []
zeros (suc n) = 0 ∷ zeros n

-- A function with values of 32 bytes, in place of SHA-256.
abbrev pub checksum : Bytes → ℕ
checksum [] = 1
checksum (b ∷ m) = b + checksum m

abbrev pub digest : Bytes → Bytes
digest m = checksum m ∷ zeros 31

pub digest-length : (m : Bytes) → length (digest m) ≡ 32
digest-length m = refl

abbrev pub three : List Bytes
three = (1 ∷ []) ∷ (2 ∷ []) ∷ (3 ∷ []) ∷ []

abbrev pub leaf_of : ℕ → Bytes
leaf_of n = digest (0 ∷ n ∷ [])

abbrev pub pair : Bytes
pair = digest (1 ∷ leaf_of 1 ++ leaf_of 2)

abbrev pub three_tree : Tree
three_tree = record {
  leaves = leaf_of 1 ∷ leaf_of 2 ∷ leaf_of 3 ∷ [];
  levels =
      (leaf_of 1 ∷ leaf_of 2 ∷ leaf_of 3 ∷ [])
      ∷ (pair ∷ leaf_of 3 ∷ [])
      ∷ (digest (1 ∷ pair ++ leaf_of 3) ∷ [])
      ∷ [];
  root = digest (1 ∷ pair ++ leaf_of 3);
}

pub three_tree-built : build_tree digest (map (hash_leaf digest) three) ≡ some three_tree
unfolding build_tree build_levels next_level hash_leaf hash_interior first
three_tree-built = refl

abbrev pub second_proof : List ProofNode
second_proof =
    record { is_left = true; hash = leaf_of 1 } ∷ record { is_left = false; hash = leaf_of 3 } ∷ []

second-accepted :
    verify_proof digest (hash_leaf digest (2 ∷ [])) second_proof three_tree.root ≡ true
unfolding verify_proof climb hash_leaf hash_interior equal_bytes
second-accepted = refl

verify_proof_sound_example : Occurs (2 ∷ []) three ⊎ Collision digest
verify_proof_sound_example =
    verify_proof_sound digest digest-length three three_tree three_tree-built (2 ∷ []) second_proof
      second-accepted

build_tree-TreeHash_example :
    (t : Tree) × (build_tree digest (leaf_of 1 ∷ leaf_of 2 ∷ leaf_of 3 ∷ []) ≡ some t)
    × (t.leaves ≡ leaf_of 1 ∷ leaf_of 2 ∷ leaf_of 3 ∷ [])
    × TreeHash digest (leaf_of 1 ∷ leaf_of 2 ∷ leaf_of 3 ∷ []) t.root
build_tree-TreeHash_example = build_tree-TreeHash digest (leaf_of 1) (leaf_of 2 ∷ leaf_of 3 ∷ [])

verify_proof-generate_proof_example :
    (t : Tree) × (p : List ProofNode) × (build_tree digest (leaf_of 1 ∷ leaf_of 2 ∷ leaf_of 3 ∷ [])
      ≡ some t)
    × (generate_proof t (pos 2) ≡ some p)
    × (verify_proof digest (leaf_of 3) p t.root ≡ true)
verify_proof-generate_proof_example =
    verify_proof-generate_proof digest (leaf_of 1 ∷ leaf_of 2 ∷ leaf_of 3 ∷ []) 2 (leaf_of 3) refl

-- A payload is encoded by its index.
abbrev pub runtime : Runtime
runtime = record {
  sha256 = digest;
  marshal_payload = λ p. some (suc p.merkle_leaf_index ∷ []);
  parse_time = λ s. none;
  format_time = λ t. "";
}

abbrev pub payload : RecordCanonicalPayload
payload = record {
  id = "r2";
  batch_id = "b1";
  table_name = "orders";
  primary_key = "2";
  event_type = "insert";
  before_image = "";
  after_image = "{}";
  actor_user_id = none;
  actor_type = "system";
  transaction_id = "xid:9";
  schema_version = "v1";
  committed_at = "2024-01-01T00:00:00Z";
  merkle_leaf_index = 1;
}

abbrev fetched : BatchVerificationData
fetched = record {
  batch_id = "b1";
  merkle_root = three_tree.root;
  signature = 5 ∷ [];
  key_version = "v1";
  all_leaf_hashes = leaf_of 1 ∷ leaf_of 2 ∷ leaf_of 3 ∷ [];
  proof = [];
}

abbrev accepts : Bytes → Bytes → String → Result Bool
accepts d s v = ok true

payload-leaf : compute_record_leaf_hash runtime payload ≡ ok (leaf_of 2)
unfolding compute_record_leaf_hash normalize hash_leaf
payload-leaf = refl

fetched-tree : build_tree digest fetched.all_leaf_hashes ≡ some three_tree
unfolding build_tree build_levels next_level hash_leaf hash_interior first
fetched-tree = refl

payload-valid : (verify_record runtime accepts 100 "r2" (ok (payload, fetched))).0.valid ≡ true
payload-valid =
    verify_record_complete runtime accepts 100 "r2" payload fetched (leaf_of 2) three_tree refl
      payload-leaf refl fetched-tree refl refl

verify_record_sound_example :
    (accepts three_tree.root (5 ∷ []) "v1" ≡ ok true)
    × (d : Bytes) × (runtime.marshal_payload (normalize runtime payload) ≡ some d)
    × (Occurs d three ⊎ Collision digest)
verify_record_sound_example =
    verify_record_sound runtime digest-length accepts 100 "r2" payload fetched three three_tree
      three_tree-built refl payload-valid

build_tree-injective_example : (three ≡ three) ⊎ Collision digest
build_tree-injective_example =
    build_tree-injective digest digest-length three three three_tree three_tree three_tree-built
      three_tree-built refl

build_tree-height_example :
    (t : Tree) × (p : List ProofNode) × (build_tree digest three ≡ some t)
    × (length t.levels ≤ 3)
    × (generate_proof t (pos 2) ≡ some p)
    × (length p ≤ 2)
build_tree-height_example = build_tree-height digest 2 three 2 (omega arith) (omega arith)
