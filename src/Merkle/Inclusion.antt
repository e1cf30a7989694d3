-- ===== src/Merkle/Inclusion.antt =====
-- Every leaf of a tree of internal/merkle/tree.go has a proof that `VerifyProof` accepts.
use mathlib.Core.Option
use logs_tracker.Prelude.{
  ℕ, zero, suc, ◌+◌, ◌-◌, ◌/◌, ◌%◌, ◌≡◌, refl, ap, sym, true, List, [], ◌∷◌, ◌++◌, length,
  get_elem?, get_elem?-lt-length, lt→ltb, Option, some, arith, if◌then◌else◌,
}
use logs_tracker.Prelude.Int.{pos}
use logs_tracker.Merkle.Root.{build_levels_total}
use logs_tracker.Merkle.{
  Bytes, ProofNode, Tree, hash_interior, next_level, build_levels, first, build_tree, climb,
  sibling, proof_path, generate_proof, equal_bytes, verify_proof,
}

equal_bytes_refl : (a : Bytes) → equal_bytes a a ≡ true
unfolding equal_bytes
equal_bytes_refl [] = refl
equal_bytes_refl (x ∷ a) = ground (arith, equal_bytes_refl a)

sibling-suc :
    (x y : Bytes) (level : List Bytes) (i : ℕ)
    → sibling (x ∷ y ∷ level) (suc (suc i)) ≡ sibling level i
unfolding sibling
sibling-suc x y level zero = refl
sibling-suc x y level (suc j) =
    let e1 : suc (suc (suc j)) % 2 ≡ suc j % 2 = omega arith in
    let e2 : suc (suc (suc j)) + 1 ≡ suc (suc (suc j + 1)) = omega arith in
    let e3 : suc (suc (suc j)) - 1 ≡ suc (suc j) = omega arith in
    let e4 : suc j - 1 ≡ j = omega arith in rw (e1, e2, e3, e4)

module _ (sha256 : Bytes → Bytes) where
  pub climb-append :
      (a : Bytes) (p q : List ProofNode)
      → climb sha256 a (p ++ q) ≡ climb sha256 (climb sha256 a p) q
  unfolding climb
  climb-append a [] q = refl
  climb-append a (n ∷ p) q =
      climb-append
        (if n.is_left then hash_interior sha256 n.hash a else hash_interior sha256 a n.hash) p q

  -- A node and its sibling hash to the node's parent.
  climb-sibling :
      (level : List Bytes) (i : ℕ) (a : Bytes)
      → get_elem? level i ≡ some a
      → get_elem? (next_level sha256 level) (i / 2) ≡ some (climb sha256 a (sibling level i))
  unfolding climb next_level
  climb-sibling [] i a h = cc
  climb-sibling (x ∷ []) zero a h = (unfold sibling in h)
  climb-sibling (x ∷ []) (suc i) a h = cc
  climb-sibling (x ∷ y ∷ level) zero a h =
      (unfold sibling in ap (λ (o : Option Bytes). Option.map (λ b. hash_interior sha256 b y) o) h)
  climb-sibling (x ∷ y ∷ level) (suc zero) a h =
      (unfold sibling in ap (λ (o : Option Bytes). Option.map (λ b. hash_interior sha256 x b) o) h)
  climb-sibling (x ∷ y ∷ level) (suc (suc i)) a h =
      let half : suc (suc i) / 2 ≡ suc (i / 2) = omega arith in
      rw (half, sibling-suc x y level i) (climb-sibling level i a h)

  build_levels-cons :
      (fuel : ℕ) (cur : List Bytes) (up : List (List Bytes) × List Bytes)
      → build_levels sha256 fuel cur ≡ some up
      → (above : List (List Bytes)) × (up.0 ≡ cur ∷ above)
  unfolding build_levels
  build_levels-cons fuel [] up e = ([], cc)
  build_levels-cons zero (x ∷ []) up e = ([], cc)
  build_levels-cons (suc fuel) (x ∷ []) up e = ([], cc)
  build_levels-cons zero (x ∷ y ∷ rest) up e = cc
  build_levels-cons (suc fuel) (x ∷ y ∷ rest) up e =
      let (up', e', p) = (Option.map-eq-some_iff _ _).0 e in
      (up'.0, ap (λ (u : List (List Bytes) × List Bytes). u.0) (sym p))

  climb_single :
      (x : Bytes) (i : ℕ) (a : Bytes) (up : List (List Bytes) × List Bytes)
      → get_elem? (x ∷ []) i ≡ some a
      → some ((x ∷ []) ∷ [], x ∷ []) ≡ some up
      → climb sha256 a (proof_path up.0 i) ≡ first up.1
  climb_single x zero a up h e =
      let p : ((x ∷ []) ∷ [], x ∷ []) ≡ up = cc in
      let q : x ≡ a = cc in rw (← p) (unfold climb proof_path in sym q)
  climb_single x (suc i) a up h e = cc

  climb-proof_path :
      (fuel : ℕ) (cur : List Bytes) (up : List (List Bytes) × List Bytes) (i : ℕ) (a : Bytes)
      → build_levels sha256 fuel cur ≡ some up
      → get_elem? cur i ≡ some a
      → climb sha256 a (proof_path up.0 i) ≡ first up.1
  unfolding build_levels proof_path
  climb-proof_path fuel [] up i a e h = cc
  climb-proof_path zero (x ∷ []) up i a e h = climb_single x i a up h e
  climb-proof_path (suc fuel) (x ∷ []) up i a e h = climb_single x i a up h e
  climb-proof_path zero (x ∷ y ∷ rest) up i a e h = cc
  climb-proof_path (suc fuel) (x ∷ y ∷ rest) up i a e h =
      let cur = x ∷ y ∷ rest in
      let next = next_level sha256 cur in
      let (up', e', p) = (Option.map-eq-some_iff _ (build_levels sha256 fuel next)).0 e in
      let (above, q) = build_levels-cons fuel next up' e' in
      let ih = climb-proof_path fuel next up' (i / 2) _ e' (climb-sibling cur i a h) in
      let step : proof_path (cur ∷ up'.0) i ≡ sibling cur i ++ proof_path up'.0 (i / 2) =
        rw q refl in
      rw (← p) (rw (step, climb-append) ih)

  -- Every leaf of a list is at its place in a tree that `BuildTree` returns for the list, and for
  -- that place `GenerateProof` returns a proof which `VerifyProof` accepts against the tree's root.
  pub verify_proof-generate_proof :
      (ds : List Bytes) (i : ℕ) (a : Bytes)
      → get_elem? ds i ≡ some a
      → (t : Tree) × (p : List ProofNode) × (build_tree sha256 ds ≡ some t)
        × (generate_proof t (pos i) ≡ some p)
        × (verify_proof sha256 a p t.root ≡ true)
  unfolding build_tree generate_proof verify_proof
  verify_proof-generate_proof [] i a h = cc
  verify_proof-generate_proof (x ∷ rest) i a h =
      let (up, e) = build_levels_total sha256 (length rest) (x ∷ rest) (omega arith) in
      (
        record { leaves = x ∷ rest; levels = up.0; root = first up.1 },
        proof_path up.0 i,
        ap (Option.map _) e,
        rw (lt→ltb i (length (x ∷ rest)) (get_elem?-lt-length (x ∷ rest) i h)),
        rw (climb-proof_path (length rest) (x ∷ rest) up i a e h) (equal_bytes_refl (first up.1)),
      )
