-- ===== src/Merkle/Soundness.antt =====
-- A proof that `VerifyProof` of internal/merkle/tree.go accepts shows the record to be in the
-- batch, or SHA-256 to have a collision.
use logs_tracker.Prelude.{
  ◌≡◌, ◌⊎◌, inl, inr, refl, ap, ◌∙◌, sym, true, List, [], ◌∷◌, ◌++◌, map, length, Option, none,
  some, arith, Bool-cases, Occurs, Occurs-append_left, Occurs-append_right, snoc_cases,
  map-eq-append, append-injective, append-injective_right,
}
use logs_tracker.Merkle.{
  Bytes, ProofNode, Tree, hash_leaf, hash_interior, build_tree, climb, verify_proof,
}
use logs_tracker.Merkle.Rfc6962.{TreeHash, leaf, node}
use logs_tracker.Merkle.Inclusion.{climb-append}
use logs_tracker.Merkle.Root.{build_tree-TreeHash}
use logs_tracker.Merkle.Collisions.{
  Collision, verify_proof-climb, hash-injective, parent, leaf-injective, cons-ne-empty, climb-nil,
  leaf-ne-interior, leaf-ne-parent,
}

abbrev pub root_or : Bytes → Option Tree → Bytes
root_or r none = r
root_or r (some t) = t.root

-- What the standard library documents of SHA-256: every hash has the same length.
module _ (sha256 : Bytes → Bytes) (size : (m : Bytes) → length (sha256 m) ≡ 32) where
  parent-length : (a : Bytes) (n : ProofNode) → length (parent sha256 a n) ≡ 32
  unfolding hash_interior
  parent-length a n = elim (Bool-cases n.is_left) [ inl l ↦ rw l (size _) | inr l ↦ rw l (size _) ]

  climb-length : (a : Bytes) (p : List ProofNode) → length a ≡ 32 → length (climb sha256 a p) ≡ 32
  unfolding climb
  climb-length a [] h = h
  climb-length a (n ∷ p) h = climb-length (parent sha256 a n) p (parent-length a n)

  climb-leaf-length :
      (d : Bytes) (p : List ProofNode) → length (climb sha256 (hash_leaf sha256 d) p) ≡ 32
  climb-leaf-length d p = climb-length (hash_leaf sha256 d) p (unfold hash_leaf in size (0 ∷ d))

  pub TreeHash-length :
      {zs : List Bytes} {r : Bytes}
      → TreeHash sha256 zs r
      → (ds : List Bytes) → map (hash_leaf sha256) ds ≡ zs
      → length r ≡ 32
  unfolding hash_leaf hash_interior
  TreeHash-length (leaf x) [] e = absurd (omega (arith, ap length e))
  TreeHash-length (leaf x) (d ∷ ds) e = let q : sha256 (0 ∷ d) ≡ x = cc in rw (← q) (size (0 ∷ d))
  TreeHash-length (node k xs ys zs a b s n h m tx ty) ds e = size (1 ∷ a ++ b)

  -- The node below the top of a proof that leads to `a` and `b` is one of them, or a collision.
  parent-eq-interior :
      (c a b : Bytes) (n : ProofNode)
      → length c ≡ 32
      → length a ≡ 32
      → length b ≡ 32
      → parent sha256 c n ≡ hash_interior sha256 a b
      → (c ≡ a) ⊎ (c ≡ b) ⊎ Collision sha256
  unfolding hash_interior
  parent-eq-interior c a b n hc ha hb e = elim (Bool-cases n.is_left) [
    | inl l ↦ elim (hash-injective sha256 (1 ∷ n.hash ++ c) (1 ∷ a ++ b) (rw l at e)) [
      | inl q ↦ inr (inl (append-injective_right n.hash c a b (hc ∙ sym hb) (cc)).1)
      | inr k ↦ inr (inr k)
    ]
    | inr l ↦ elim (hash-injective sha256 (1 ∷ c ++ n.hash) (1 ∷ a ++ b) (rw l at e)) [
      | inl q ↦ inl (append-injective c n.hash a b (hc ∙ sym ha) (cc)).0
      | inr k ↦ inr (inr k)
    ]
  ]

  -- The last step of a proof is the step to the root.
  climb-snoc :
      (d : Bytes) (p q : List ProofNode) (n : ProofNode)
      → p ≡ q ++ n ∷ []
      → climb sha256 (hash_leaf sha256 d) p ≡ parent sha256 (climb sha256 (hash_leaf sha256 d) q) n
  climb-snoc d p q n e = rw (e, climb-append) (unfold climb in refl)

  climb-Occurs :
      {zs : List Bytes} {r : Bytes}
      → TreeHash sha256 zs r
      → (ds : List Bytes) → map (hash_leaf sha256) ds ≡ zs
      → (d : Bytes) (p : List ProofNode) → climb sha256 (hash_leaf sha256 d) p ≡ r
      → Occurs d ds ⊎ Collision sha256
  climb-Occurs (leaf x) [] e d p c = absurd (omega (arith, ap length e))
  climb-Occurs (leaf x) (d0 ∷ ds) e d p c =
      let x_leaf : x ≡ hash_leaf sha256 d0 = cc in
      elim (snoc_cases p) [
        | inl none_left ↦
            elim (leaf-injective sha256 d d0 (sym (climb-nil sha256 _ p none_left) ∙ c ∙ x_leaf)) [
              | inl q ↦ inl (0, ap some (sym q))
              | inr k ↦ inr k
            ]
        | inr (q, n, s) ↦
            inr (leaf-ne-parent sha256 d0 _ n (sym x_leaf ∙ sym c ∙ climb-snoc d p q n s))
      ]
  climb-Occurs (node k xs ys zs a b s n h m tx ty) ds e d p c =
      let (us, vs, ds_split, mu, mv) = map-eq-append (hash_leaf sha256) ds xs ys (e ∙ s) in
      elim (snoc_cases p) [
        | inl none_left ↦
            inr (leaf-ne-interior sha256 d a b (sym (climb-nil sha256 _ p none_left) ∙ c))
        | inr (q, t, l) ↦
            elim (parent-eq-interior (climb sha256 (hash_leaf sha256 d) q) a b t
              (climb-leaf-length d q) (TreeHash-length tx us mu) (TreeHash-length ty vs mv)
              (sym (climb-snoc d p q t l) ∙ c)) [
                | inl to_left ↦ elim (climb-Occurs tx us mu d q to_left) [
                  | inl o ↦ inl (rw ds_split (Occurs-append_left d us vs o))
                  | inr k ↦ inr k
                ]
                | inr (inl to_right) ↦ elim (climb-Occurs ty vs mv d q to_right) [
                  | inl o ↦ inl (rw ds_split (Occurs-append_right d us vs o))
                  | inr k ↦ inr k
                ]
                | inr (inr k) ↦ inr k
              ]
      ]

  parent-ne-empty : (a : Bytes) (n : ProofNode) → parent sha256 a n ≡ sha256 [] → Collision sha256
  unfolding hash_interior
  parent-ne-empty a n e = elim (Bool-cases n.is_left) [
    | inl l ↦ cons-ne-empty sha256 1 (n.hash ++ a) (rw l at e)
    | inr l ↦ cons-ne-empty sha256 1 (a ++ n.hash) (rw l at e)
  ]

  -- The root of the empty tree is not the end of a proof.
  climb-ne-empty :
      (d : Bytes) (p : List ProofNode)
      → climb sha256 (hash_leaf sha256 d) p ≡ sha256 []
      → Collision sha256
  climb-ne-empty d p c = elim (snoc_cases p) [
    | inl e ↦ cons-ne-empty sha256 0 d (unfold hash_leaf in (sym (climb-nil sha256 _ p e) ∙ c))
    | inr (q, n, s) ↦ parent-ne-empty _ n (sym (climb-snoc d p q n s) ∙ c)
  ]

  -- If SHA-256 gives hashes of 32 bytes, a record whose leaf hash `VerifyProof` accepts against the
  -- root of the tree over the leaf hashes of `ds`, by any proof at all, is one of `ds`, or there
  -- are two inputs with one hash.
  pub verify_proof_sound :
      (ds : List Bytes) (t : Tree)
      → build_tree sha256 (map (hash_leaf sha256) ds) ≡ some t
      → (d : Bytes) (p : List ProofNode) → verify_proof sha256 (hash_leaf sha256 d) p t.root ≡ true
      → Occurs d ds ⊎ Collision sha256
  verify_proof_sound [] t e d p v =
      let root : sha256 [] ≡ t.root =
        unfold build_tree in ap (λ (u : Option Tree). root_or (sha256 []) u) e in
      inr (climb-ne-empty d p (verify_proof-climb sha256 _ p t.root v ∙ sym root))
  verify_proof_sound (d0 ∷ ds) t e d p v =
      let (t', e', _, h) =
        build_tree-TreeHash sha256 (hash_leaf sha256 d0) (map (hash_leaf sha256) ds) in
      let same : t' ≡ t = cc in
      climb-Occurs h (d0 ∷ ds) refl d p
        (verify_proof-climb sha256 _ p t.root v ∙ ap (λ (u : Tree). u.root) (sym same))
