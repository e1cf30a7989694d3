-- ===== src/Merkle/Rfc6962.antt =====
-- The Merkle tree hash of RFC 6962, section 2.1, which internal/merkle/tree.go is to compute.
use logs_tracker.Prelude.{ℕ, ◌^◌, ◌≤◌, ◌<◌, ◌≡◌, List, [], ◌∷◌, ◌++◌, length}
use logs_tracker.Merkle.{Bytes, hash_interior}

-- One leaf is its own hash. More are split at the largest power of two below their number: the
-- left part has 2 ^ k leaves, and the right part has some and not more than the left.
pub data TreeHash (sha256 : Bytes → Bytes) : List Bytes → Bytes → Type 0 where
  leaf : (x : Bytes) → TreeHash sha256 (x ∷ []) x
  node :
      (k : ℕ) (xs ys zs : List Bytes) (a b : Bytes)
      → zs ≡ xs ++ ys
      → length xs ≡ 2 ^ k
      → 0 < length ys
      → length ys ≤ 2 ^ k
      → TreeHash sha256 xs a
      → TreeHash sha256 ys b
      → TreeHash sha256 zs (hash_interior sha256 a b)
