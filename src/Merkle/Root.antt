-- ===== src/Merkle/Root.antt =====
-- The tree of internal/merkle/tree.go against RFC 6962.
use mathlib.Core.Option
use native.Mathlib.Nat.{pow-suc}
use logs_tracker.Prelude.{
  ℕ, zero, suc, ◌+◌, ◌*◌, ◌≤◌, ◌<◌, ◌≡◌, refl, ap, ◌∙◌, List, [], ◌∷◌, ◌++◌, length, length-append,
  some, subst, arith,
}
use logs_tracker.Merkle.{Bytes, Tree, hash_interior, next_level, build_levels, first, build_tree}
use logs_tracker.Merkle.Rfc6962.{TreeHash, leaf, node}

module _ (sha256 : Bytes → Bytes) where
  pub length-next_level :
      (xs : List Bytes)
      → (length xs ≤ 2 * length (next_level sha256 xs))
        × (2 * length (next_level sha256 xs) ≤ length xs + 1)
  unfolding next_level
  length-next_level [] = omega arith
  length-next_level (x ∷ []) = omega arith
  length-next_level (x ∷ y ∷ rest) = omega (arith, length-next_level rest)

  -- A split of a level comes from a split of the level below, at twice the place.
  next_level-split :
      (cur xs ys : List Bytes)
      → 0 < length ys
      → next_level sha256 cur ≡ xs ++ ys
      → (us : List Bytes) × (vs : List Bytes) × (cur ≡ us ++ vs)
        × (length us ≡ 2 * length xs)
        × (next_level sha256 us ≡ xs)
        × (next_level sha256 vs ≡ ys)
  unfolding next_level
  next_level-split cur [] ys h e = ([], cur, refl, refl, refl, e)
  next_level-split [] (x ∷ xs) ys h e = cc
  next_level-split (c ∷ []) (x ∷ xs) ys h e =
      absurd (omega (arith, ap length e, length-append xs ys))
  next_level-split (c ∷ d ∷ rest) (x ∷ xs) ys h e =
      let (us, vs, p, n, q, r) = next_level-split rest xs ys h (cc) in
      (c ∷ d ∷ us, vs, ap (λ (l : List Bytes). c ∷ d ∷ l) p, omega arith, cc, r)

  -- What hashes to `x` alone is `x`, or two nodes with that parent.
  TreeHash-of-single :
      (cur : List Bytes) (x : Bytes) → next_level sha256 cur ≡ x ∷ [] → TreeHash sha256 cur x
  unfolding next_level
  TreeHash-of-single [] x e = absurd (omega (arith, ap length e))
  TreeHash-of-single (c ∷ []) x e = let p : c ≡ x = cc in rw p (leaf x)
  TreeHash-of-single (c ∷ d ∷ []) x e =
      let p : hash_interior sha256 c d ≡ x = cc in
      rw (← p) (
        node 0 (c ∷ []) (d ∷ []) (c ∷ d ∷ []) c d refl refl (omega arith) (omega arith) (leaf c)
          (leaf d))
  TreeHash-of-single (c ∷ d ∷ u ∷ rest) x e =
      absurd (omega (arith, ap length e, length-next_level (u ∷ rest)))

  -- Hashing a level together does not change the tree hash.
  next_level-TreeHash :
      {zs : List Bytes} {r : Bytes}
      → TreeHash sha256 zs r
      → (cur : List Bytes) → next_level sha256 cur ≡ zs
      → TreeHash sha256 cur r
  next_level-TreeHash (leaf x) cur e = TreeHash-of-single cur x e
  next_level-TreeHash (node k xs ys zs a b s n h m tx ty) cur e =
      let (us, vs, p, n', q, r) = next_level-split cur xs ys h (e ∙ s) in
      node (suc k) us vs cur a b p (omega (arith, pow-suc 2 k))
        (omega (arith, length-next_level vs, ap length r))
        (omega (arith, length-next_level vs, ap length r, pow-suc 2 k))
        (next_level-TreeHash tx us q) (next_level-TreeHash ty vs r)

  build_levels-TreeHash :
      (fuel : ℕ) (cur : List Bytes) (up : List (List Bytes) × List Bytes)
      → 0 < length cur
      → build_levels sha256 fuel cur ≡ some up
      → TreeHash sha256 cur (first up.1)
  unfolding build_levels
  build_levels-TreeHash fuel [] up h e = absurd (omega arith)
  build_levels-TreeHash zero (x ∷ []) up h e =
      let p : x ≡ first up.1 = cc in subst (TreeHash sha256 (x ∷ [])) p (leaf x)
  build_levels-TreeHash (suc fuel) (x ∷ []) up h e =
      let p : x ≡ first up.1 = cc in subst (TreeHash sha256 (x ∷ [])) p (leaf x)
  build_levels-TreeHash zero (x ∷ y ∷ rest) up h e = cc
  build_levels-TreeHash (suc fuel) (x ∷ y ∷ rest) up h e =
      let next = next_level sha256 (x ∷ y ∷ rest) in
      let (up', e', p) = (Option.map-eq-some_iff _ (build_levels sha256 fuel next)).0 e in
      let q : first up'.1 ≡ first up.1 = ap (λ (u : List (List Bytes) × List Bytes). first u.1) p in
      next_level-TreeHash
        (subst (TreeHash sha256 next) q (
          build_levels-TreeHash fuel next up' (omega (arith, length-next_level (x ∷ y ∷ rest))) e'))
        (x ∷ y ∷ rest) refl

  -- One round less than the number of nodes is fuel enough.
  pub build_levels_total :
      (fuel : ℕ) (cur : List Bytes)
      → length cur ≤ suc fuel
      → (up : List (List Bytes) × List Bytes) × (build_levels sha256 fuel cur ≡ some up)
  unfolding build_levels
  build_levels_total zero [] h = (_, refl)
  build_levels_total zero (x ∷ []) h = (_, refl)
  build_levels_total (suc fuel) [] h = (_, refl)
  build_levels_total (suc fuel) (x ∷ []) h = (_, refl)
  build_levels_total zero (x ∷ y ∷ rest) h = absurd (omega arith)
  build_levels_total (suc fuel) (x ∷ y ∷ rest) h =
      let next = next_level sha256 (x ∷ y ∷ rest) in
      let (up, e) =
        build_levels_total fuel next (omega (arith, length-next_level (x ∷ y ∷ rest))) in
      (((x ∷ y ∷ rest) ∷ up.0, up.1), ap (Option.map _) e)

  -- For one leaf or more `BuildTree` returns a tree over those leaves, whose root is the tree hash
  -- of RFC 6962.
  pub build_tree-TreeHash :
      (x : Bytes) (rest : List Bytes)
      → (t : Tree) × (build_tree sha256 (x ∷ rest) ≡ some t)
        × (t.leaves ≡ x ∷ rest)
        × TreeHash sha256 (x ∷ rest) t.root
  unfolding build_tree
  build_tree-TreeHash x rest =
      let (up, e) = build_levels_total (length rest) (x ∷ rest) (omega arith) in
      (
        record { leaves = x ∷ rest; levels = up.0; root = first up.1 },
        ap (Option.map _) e,
        refl,
        build_levels-TreeHash (length rest) (x ∷ rest) up (omega arith) e,
      )
