-- ===== src/Merkle/Binding.antt =====
-- The root of a tree of internal/merkle/tree.go fixes the records of the batch, or SHA-256 has a
-- collision.
use logs_tracker.Prelude.{
  ◌≡◌, ◌⊎◌, inl, inr, refl, subst, ap, ap₂, ◌∙◌, sym, List, [], ◌∷◌, ◌++◌, map, length, Option,
  some, map-eq-append, append-injective,
}
use logs_tracker.Merkle.{Bytes, Tree, hash_leaf, hash_interior, build_tree}
use logs_tracker.Merkle.Rfc6962.{TreeHash, leaf, node}
use logs_tracker.Merkle.Root.{build_tree-TreeHash}
use logs_tracker.Merkle.Collisions.{
  Collision, hash-injective, leaf-injective, cons-ne-empty, leaf-ne-interior,
}
use logs_tracker.Merkle.Soundness.{TreeHash-length, root_or}

module _ (sha256 : Bytes → Bytes) (size : (m : Bytes) → length (sha256 m) ≡ 32) where
  interior-injective :
      (a b c d : Bytes)
      → length a ≡ length c
      → hash_interior sha256 a b ≡ hash_interior sha256 c d
      → ((a ≡ c) × (b ≡ d)) ⊎ Collision sha256
  unfolding hash_interior
  interior-injective a b c d l e = elim (hash-injective sha256 (1 ∷ a ++ b) (1 ∷ c ++ d) e) [
    | inl q ↦ inl (append-injective a b c d l (cc))
    | inr k ↦ inr k
  ]

  -- One record alone.
  single :
      (x : Bytes) (ds : List Bytes)
      → map (hash_leaf sha256) ds ≡ x ∷ []
      → (d : Bytes) × (ds ≡ d ∷ []) × (x ≡ hash_leaf sha256 d)
  single x [] e = cc
  single x (d ∷ []) e = (d, refl, (cc))
  single x (d ∷ f ∷ ds) e = cc

  TreeHash-injective :
      {zs ws : List Bytes} {r q : Bytes}
      → TreeHash sha256 zs r
      → TreeHash sha256 ws q
      → (ds es : List Bytes) → map (hash_leaf sha256) ds ≡ zs
      → map (hash_leaf sha256) es ≡ ws
      → r ≡ q
      → (ds ≡ es) ⊎ Collision sha256
  TreeHash-injective (leaf x) (leaf y) ds es p p' same =
      let (d, ds_is, x_is) = single x ds p in
      let (e, es_is, y_is) = single y es p' in
      elim (leaf-injective sha256 d e (sym x_is ∙ same ∙ y_is)) [
        | inl d_is ↦ inl (ds_is ∙ ap (λ u. u ∷ []) d_is ∙ sym es_is)
        | inr k ↦ inr k
      ]
  TreeHash-injective (leaf x) (node k xs ys ws a b s n h m tx ty) ds es p p' same =
      let (d, ds_is, x_is) = single x ds p in inr (leaf-ne-interior sha256 d a b (sym x_is ∙ same))
  TreeHash-injective (node k xs ys zs a b s n h m tx ty) (leaf y) ds es p p' same =
      let (e, es_is, y_is) = single y es p' in
      inr (leaf-ne-interior sha256 e a b (sym y_is ∙ sym same))
  TreeHash-injective (node k xs ys zs a b s n h m tx ty)
        (node k' xs' ys' ws a' b' s' n' h' m' tx' ty') ds es p p' same =
      let (us, vs, ds_split, mu, mv) = map-eq-append (hash_leaf sha256) ds xs ys (p ∙ s) in
      let (us', vs', es_split, mu', mv') = map-eq-append (hash_leaf sha256) es xs' ys' (p' ∙ s') in
      let lengths =
        TreeHash-length sha256 size tx us mu ∙ sym (TreeHash-length sha256 size tx' us' mu') in
      elim (interior-injective a b a' b' lengths same) [
        | inr c ↦ inr c
        | inl (left, right) ↦ elim (TreeHash-injective tx tx' us us' mu mu' left) [
          | inr c ↦ inr c
          | inl us_is ↦ elim (TreeHash-injective ty ty' vs vs' mv mv' right) [
            | inr c ↦ inr c
            | inl vs_is ↦ inl (ds_split ∙ ap₂ (λ u v. u ++ v) us_is vs_is ∙ sym es_split)
          ]
        ]
      ]

  TreeHash-ne-empty :
      {zs : List Bytes} {r : Bytes}
      → TreeHash sha256 zs r
      → (ds : List Bytes) → map (hash_leaf sha256) ds ≡ zs
      → r ≡ sha256 []
      → Collision sha256
  unfolding hash_leaf hash_interior
  TreeHash-ne-empty (leaf x) [] p e = cc
  TreeHash-ne-empty (leaf x) (d ∷ ds) p e =
      let x_is : sha256 (0 ∷ d) ≡ x = cc in cons-ne-empty sha256 0 d (x_is ∙ e)
  TreeHash-ne-empty (node k xs ys zs a b s n h m tx ty) ds p e = cons-ne-empty sha256 1 (a ++ b) e

  empty-root : (t : Tree) → build_tree sha256 [] ≡ some t → sha256 [] ≡ t.root
  unfolding build_tree
  empty-root t e = ap (λ (u : Option Tree). root_or (sha256 []) u) e

  tree-root :
      (d : Bytes) (ds : List Bytes) (t : Tree)
      → build_tree sha256 (map (hash_leaf sha256) (d ∷ ds)) ≡ some t
      → TreeHash sha256 (map (hash_leaf sha256) (d ∷ ds)) t.root
  tree-root d ds t e =
      let (u, built, _, h) =
        build_tree-TreeHash sha256 (hash_leaf sha256 d) (map (hash_leaf sha256) ds) in
      let same : u ≡ t = cc in
      subst (λ (x : Tree). TreeHash sha256 (map (hash_leaf sha256) (d ∷ ds)) x.root) same h

  -- If SHA-256 gives hashes of 32 bytes, two batches of encoded records whose trees have one root
  -- are the same records in the same order, or there are two inputs with one hash.
  pub build_tree-injective :
      (ds es : List Bytes) (t u : Tree)
      → build_tree sha256 (map (hash_leaf sha256) ds) ≡ some t
      → build_tree sha256 (map (hash_leaf sha256) es) ≡ some u
      → t.root ≡ u.root
      → (ds ≡ es) ⊎ Collision sha256
  build_tree-injective [] [] t u p q same = inl refl
  build_tree-injective [] (e ∷ es) t u p q same =
      inr (TreeHash-ne-empty (tree-root e es u q) (e ∷ es) refl (sym same ∙ sym (empty-root t p)))
  build_tree-injective (d ∷ ds) [] t u p q same =
      inr (TreeHash-ne-empty (tree-root d ds t p) (d ∷ ds) refl (same ∙ sym (empty-root u q)))
  build_tree-injective (d ∷ ds) (e ∷ es) t u p q same =
      TreeHash-injective (tree-root d ds t p) (tree-root e es u q) (d ∷ ds) (e ∷ es) refl refl same
