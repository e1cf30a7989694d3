-- ===== src/Merkle/Height.antt =====
-- How many rounds the loop of BuildTree in internal/merkle/tree.go takes, and how long its proofs are.
use mathlib.Core.Option
use native.Mathlib.Nat.{pow-suc}
use logs_tracker.Prelude.{
  ℕ, zero, suc, ◌-◌, ◌^◌, ◌%◌, ◌/◌, ◌==◌, ◌≤◌, ◌<◌, ◌≡◌, refl, ap, Bool, true, false, Bool-cases,
  inl, inr, Option, none, some, List, [], ◌∷◌, length, length-append, lt→ltb, arith,
}
use logs_tracker.Prelude.Int.{pos}
use logs_tracker.Merkle.{
  Bytes, ProofNode, Tree, next_level, build_levels, first, build_tree, node_at, sibling, proof_path,
  generate_proof,
}
use logs_tracker.Merkle.Root.{length-next_level, build_levels_total}

length-node_at : (o : Option Bytes) (left : Bool) → length (node_at o left) ≤ 1
length-node_at none left = omega arith
length-node_at (some h) left = omega arith

length-sibling : (level : List Bytes) (i : ℕ) → length (sibling level i) ≤ 1
unfolding sibling
length-sibling level i = elim (Bool-cases (i % 2 == 0)) [
  | inl t ↦ rw t (length-node_at _ false)
  | inr f ↦ rw f (length-node_at _ true)
]

-- One node at most for each level but the last.
length-proof_path :
    (levels : List (List Bytes)) (i : ℕ) → length (proof_path levels i) ≤ length levels - 1
unfolding proof_path
length-proof_path [] i = omega arith
length-proof_path (level ∷ []) i = omega arith
length-proof_path (level ∷ next ∷ up) i = omega (
  arith,
  length-append (sibling level i) (proof_path (next ∷ up) (i / 2)),
  length-sibling level i,
  length-proof_path (next ∷ up) (i / 2),
)

one-level :
    (n : ℕ) (level : List Bytes) (up : List (List Bytes) × List Bytes)
    → some (level ∷ [], level) ≡ some up
    → length up.0 ≤ suc n
one-level n level up e =
    let same : (level ∷ [], level) ≡ up = cc in omega (arith, ap (λ u. length u.0) same)

module _ (sha256 : Bytes → Bytes) where
  length-build_levels :
      (n fuel : ℕ) (cur : List Bytes) (up : List (List Bytes) × List Bytes)
      → length cur ≤ 2 ^ n
      → build_levels sha256 fuel cur ≡ some up
      → length up.0 ≤ suc n
  unfolding build_levels
  length-build_levels n fuel [] up h e = one-level n [] up e
  length-build_levels n zero (x ∷ []) up h e = one-level n (x ∷ []) up e
  length-build_levels n (suc fuel) (x ∷ []) up h e = one-level n (x ∷ []) up e
  length-build_levels n zero (x ∷ y ∷ rest) up h e = cc
  length-build_levels zero (suc fuel) (x ∷ y ∷ rest) up h e = absurd (omega (arith, h))
  length-build_levels (suc n) (suc fuel) (x ∷ y ∷ rest) up h e =
      let next = next_level sha256 (x ∷ y ∷ rest) in
      let (up', e', p) = (Option.map-eq-some_iff _ (build_levels sha256 fuel next)).0 e in
      let fits : length next ≤ 2 ^ n =
        omega (arith, length-next_level sha256 (x ∷ y ∷ rest), pow-suc 2 n) in
      let below = length-build_levels n fuel next up' fits e' in
      let same : (x ∷ y ∷ rest) ∷ up'.0 ≡ up.0 = ap (λ u. u.0) p in
      omega (arith, ap length same, below)

  -- Up to 2 ^ n leaves `BuildTree` ends with a tree of at most n + 1 levels, and gives each leaf a
  -- proof of at most n nodes.
  pub build_tree-height :
      (n : ℕ) (leaves : List Bytes) (i : ℕ)
      → length leaves ≤ 2 ^ n
      → i < length leaves
      → (t : Tree) × (p : List ProofNode) × (build_tree sha256 leaves ≡ some t)
        × (length t.levels ≤ suc n)
        × (generate_proof t (pos i) ≡ some p)
        × (length p ≤ n)
  unfolding build_tree generate_proof
  build_tree-height n [] i h lt = absurd (omega arith)
  build_tree-height n (x ∷ rest) i h lt =
      let (up, e) = build_levels_total sha256 (length rest) (x ∷ rest) (omega arith) in
      let levels = length-build_levels n (length rest) (x ∷ rest) up h e in
      (
        record { leaves = x ∷ rest; levels = up.0; root = first up.1 },
        proof_path up.0 i,
        ap (Option.map _) e,
        levels,
        rw (lt→ltb i (length (x ∷ rest)) lt) refl,
        omega (arith, levels, length-proof_path up.0 i),
      )
