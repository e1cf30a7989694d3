-- ===== src/Merkle.antt =====
-- internal/merkle/tree.go: leaf and interior hashes, the tree, its proofs and their check.
-- SHA-256 is a parameter: any function from bytes to bytes.
pub mod Rfc6962
pub mod Root
pub mod Inclusion
pub mod Height
pub mod Collisions
pub mod Soundness
pub mod Binding
pub mod Payload
pub mod Verifier
pub mod Records
use mathlib.Core.Option
use logs_tracker.Prelude.{
  ℕ, zero, suc, ◌+◌, ◌-◌, ◌/◌, ◌%◌, Bool, true, false, Option, none, some, List, [], ◌∷◌, ◌++◌,
  length, get_elem?, ltb, ◌==◌, if◌then◌else◌,
}
use logs_tracker.Prelude.Int.{ℤ, pos, negsuc}

abbrev pub Bytes : Type 0
Bytes = List ℕ

pub record ProofNode : Type 0 where
  pub hash : Bytes
  pub is_left : Bool

pub record Tree : Type 0 where
  pub leaves : List Bytes
  pub levels : List (List Bytes)
  pub root : Bytes

abbrev pub first : List Bytes → Bytes
first [] = []
first (x ∷ xs) = x

module _ (sha256 : Bytes → Bytes) where
  unfoldable pub hash_leaf : Bytes → Bytes
  hash_leaf d = sha256 (0 ∷ d)

  unfoldable pub hash_interior : Bytes → Bytes → Bytes
  hash_interior left right = sha256 (1 ∷ left ++ right)

  -- The inner loop: neighbours are hashed together and a lone last node is promoted.
  unfoldable pub next_level : List Bytes → List Bytes
  next_level [] = []
  next_level (x ∷ []) = x ∷ []
  next_level (x ∷ y ∷ rest) = hash_interior x y ∷ next_level rest

  -- The outer loop, `for len(current) > 1`: the levels from `current` up, and the last of them.
  -- `none` means that the fuel ran out.
  unfoldable pub build_levels : ℕ → List Bytes → Option (List (List Bytes) × List Bytes)
  build_levels fuel [] = some ([] ∷ [], [])
  build_levels fuel (x ∷ []) = some ((x ∷ []) ∷ [], x ∷ [])
  build_levels zero (x ∷ y ∷ rest) = none
  build_levels (suc fuel) (x ∷ y ∷ rest) =
      Option.map (λ (up : List (List Bytes) × List Bytes). ((x ∷ y ∷ rest) ∷ up.0, up.1))
        (build_levels fuel (next_level (x ∷ y ∷ rest)))

  unfoldable pub build_tree : List Bytes → Option Tree
  build_tree [] =
      let empty_root = sha256 [] in
      some (record { leaves = []; levels = (empty_root ∷ []) ∷ []; root = empty_root })
  build_tree (leaf ∷ rest) =
      Option.map
        (λ (up : List (List Bytes) × List Bytes). record {
          leaves = leaf ∷ rest;
          levels = up.0;
          root = first up.1;
        })
        (build_levels (length rest) (leaf ∷ rest))

  -- The fold of `VerifyProof`: the hash at the top of an authentication path.
  unfoldable pub climb : Bytes → List ProofNode → Bytes
  climb current [] = current
  climb current (node ∷ rest) =
      climb
        (if node.is_left then hash_interior node.hash current else hash_interior current node.hash)
        rest

abbrev pub node_at : Option Bytes → Bool → List ProofNode
node_at none left = []
node_at (some h) left = record { hash = h; is_left = left } ∷ []

-- The sibling of the node at `idx` of one level, if the level has it.
unfoldable pub sibling : List Bytes → ℕ → List ProofNode
sibling level idx =
    if idx % 2 == 0
    then node_at (get_elem? level (idx + 1)) false
    else node_at (get_elem? level (idx - 1)) true

-- The loop of `GenerateProof`, over every level but the last.
unfoldable pub proof_path : List (List Bytes) → ℕ → List ProofNode
proof_path [] idx = []
proof_path (level ∷ []) idx = []
proof_path (level ∷ next ∷ up) idx = sibling level idx ++ proof_path (next ∷ up) (idx / 2)

-- `none` is `ErrIndexOutOfRange`.
unfoldable pub generate_proof : Tree → ℤ → Option (List ProofNode)
generate_proof t (negsuc n) = none
generate_proof t (pos i) = if ltb i (length t.leaves) then some (proof_path t.levels i) else none

same_bytes : Bytes → Bytes → Bool
same_bytes [] bs = true
same_bytes (a ∷ as') [] = false
same_bytes (a ∷ as') (b ∷ bs) = if a == b then same_bytes as' bs else false

-- Unequal lengths, then the first unequal byte, refuse.
unfoldable pub equal_bytes : Bytes → Bytes → Bool
unfolding same_bytes
equal_bytes a b = if length a == length b then same_bytes a b else false

unfoldable pub verify_proof : (Bytes → Bytes) → Bytes → List ProofNode → Bytes → Bool
verify_proof sha256 leaf_hash proof expected_root =
    equal_bytes (climb sha256 leaf_hash proof) expected_root
