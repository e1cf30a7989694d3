-- ===== src/Merkle/Collisions.antt =====
-- Where the hashes of internal/merkle/tree.go agree, their inputs do, or SHA-256 has a collision.
use logs_tracker.Prelude.{
  ℕ, ◌≡◌, ◌≢◌, ◌⊎◌, inl, inr, refl, true, List, [], ◌∷◌, ◌++◌, arith, if◌then◌else◌, Bool-cases,
  ℕ_discrete,
}
use mathlib.Core.List.{append_cancel_left, append_cancel_right}
use logs_tracker.Merkle.{
  Bytes, ProofNode, hash_leaf, hash_interior, climb, equal_bytes, verify_proof,
}

-- Two inputs with one hash.
pub record Collision (sha256 : Bytes → Bytes) : Type 0 where
  pub left : Bytes
  pub right : Bytes
  pub distinct : left ≢ right
  pub same_hash : sha256 left ≡ sha256 right

Bytes-discrete : Discrete Bytes
Bytes-discrete = hlevel ℕ_discrete

pub equal_bytes-eq : (a b : Bytes) → equal_bytes a b ≡ true → a ≡ b
unfolding equal_bytes
equal_bytes-eq [] [] h = refl
equal_bytes-eq [] (y ∷ b) h = absurd (ground arith)
equal_bytes-eq (x ∷ a) [] h = absurd (ground arith)
equal_bytes-eq (x ∷ a) (y ∷ b) h = ground (arith, equal_bytes-eq a b)

module _ (sha256 : Bytes → Bytes) where
  -- Equal hashes have equal inputs, or are a collision.
  pub hash-injective : (a b : Bytes) → sha256 a ≡ sha256 b → (a ≡ b) ⊎ Collision sha256
  hash-injective a b e = elim (Bytes-discrete a b) [
    | yes p ↦ inl p
    | no n ↦ inr (record { left = a; right = b; distinct = n; same_hash = e })
  ]

  abbrev pub parent : Bytes → ProofNode → Bytes
  parent a n = if n.is_left then hash_interior sha256 n.hash a else hash_interior sha256 a n.hash

  parent-injective :
      (a b : Bytes) (n : ProofNode) → parent a n ≡ parent b n → (a ≡ b) ⊎ Collision sha256
  unfolding hash_interior
  parent-injective a b n e = elim (Bool-cases n.is_left) [
    | inl l ↦ elim (hash-injective (1 ∷ n.hash ++ a) (1 ∷ n.hash ++ b) (rw l at e)) [
      | inl q ↦ inl (append_cancel_left n.hash a b (cc))
      | inr c ↦ inr c
    ]
    | inr l ↦ elim (hash-injective (1 ∷ a ++ n.hash) (1 ∷ b ++ n.hash) (rw l at e)) [
      | inl q ↦ inl (append_cancel_right a b n.hash (cc))
      | inr c ↦ inr c
    ]
  ]

  -- One proof leads from two leaf hashes to one root only if they are equal, or by a collision.
  pub climb-injective :
      (a b : Bytes) (p : List ProofNode)
      → climb sha256 a p ≡ climb sha256 b p
      → (a ≡ b) ⊎ Collision sha256
  unfolding climb
  climb-injective a b [] e = inl e
  climb-injective a b (n ∷ p) e = elim (climb-injective (parent a n) (parent b n) p e) [
    | inl q ↦ parent-injective a b n q
    | inr c ↦ inr c
  ]

  pub verify_proof-climb :
      (a : Bytes) (p : List ProofNode) (r : Bytes)
      → verify_proof sha256 a p r ≡ true
      → climb sha256 a p ≡ r
  unfolding verify_proof
  verify_proof-climb a p r v = equal_bytes-eq (climb sha256 a p) r v

  pub cons-ne-empty : (x : ℕ) (m : Bytes) → sha256 (x ∷ m) ≡ sha256 [] → Collision sha256
  cons-ne-empty x m e = record { left = x ∷ m; right = []; distinct = λ p. cc; same_hash = e }

  pub leaf-injective :
      (d e : Bytes) → hash_leaf sha256 d ≡ hash_leaf sha256 e → (d ≡ e) ⊎ Collision sha256
  unfolding hash_leaf
  leaf-injective d e h = elim (hash-injective (0 ∷ d) (0 ∷ e) h) [
    | inl q ↦ inl (cc)
    | inr c ↦ inr c
  ]

  pub climb-nil : (a : Bytes) (p : List ProofNode) → p ≡ [] → climb sha256 a p ≡ a
  climb-nil a p e = rw e (unfold climb in refl)

  -- A leaf hash is an interior hash only by a collision: the first bytes differ.
  pub leaf-ne-interior :
      (d a b : Bytes) → hash_leaf sha256 d ≡ hash_interior sha256 a b → Collision sha256
  unfolding hash_leaf hash_interior
  leaf-ne-interior d a b e = record {
    left = 0 ∷ d;
    right = 1 ∷ a ++ b;
    distinct = λ p. ground arith;
    same_hash = e;
  }

  pub leaf-ne-parent :
      (d a : Bytes) (n : ProofNode) → hash_leaf sha256 d ≡ parent a n → Collision sha256
  leaf-ne-parent d a n e = elim (Bool-cases n.is_left) [
    | inl l ↦ leaf-ne-interior d n.hash a (rw l at e)
    | inr l ↦ leaf-ne-interior d a n.hash (rw l at e)
  ]
