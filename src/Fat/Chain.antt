-- ===== src/Fat/Chain.antt =====
-- The cluster chains of boot/limine/limine/common/fs/fat32.s2.c.
use nebula_os.Common.{
  ℕ, zero, suc, ◌+◌, ◌≤◌, ◌≡◌, ◌↔◌, refl, ap, ◌∙◌, subst, true, false, Option, some, List, [], ◌∷◌,
  length, arith, Option-cases, Bool-cases, inl, inr,
}
use nebula_os.Fat.{
  Context, is_cluster, max_clusters, read_cluster_from_map, chain_length_from, chain_from,
  cache_cluster_chain,
}

-- The FAT leads from a cluster through these and no others to an entry that is no cluster.
pub data IsChain (read : ℕ → ℕ → Option (List ℕ)) (context : Context) : ℕ → List ℕ → Type 0 where
  last :
      {c e : ℕ}
      → read_cluster_from_map read context c ≡ some e
      → is_cluster context e ≡ false
      → IsChain read context c (c ∷ [])
  more :
      {c next : ℕ} {cs : List ℕ}
      → read_cluster_from_map read context c ≡ some next
      → is_cluster context next ≡ true
      → IsChain read context next cs
      → IsChain read context c (c ∷ cs)

module _ (read : ℕ → ℕ → Option (List ℕ)) (context : Context) where
  -- The first loop finds the length of the chain, if that is allowed.
  length-IsChain :
      (n k c m : ℕ)
      → chain_length_from read context n k c ≡ some m
      → (cs : List ℕ) × IsChain read context c cs × (m + 1 ≡ k + length cs) × (length cs ≤ n)
  unfolding chain_length_from
  length-IsChain zero k c m h = absurd (cc h)
  length-IsChain (suc n) k c m h = elim (Option-cases (read_cluster_from_map read context c)) [
    | inl e ↦ absurd (ground (arith, h, e))
    | inr (next, e) ↦ elim (Bool-cases (is_cluster context next)) [
      | inr b ↦ (c ∷ [], last e b, ground (arith, h, e, b), omega arith)
      | inl b ↦
          let rest = length-IsChain n (k + 1) next m (ground (arith, h, e, b)) in
          (c ∷ rest.0, more e b rest.1, omega (arith, rest.2), omega (arith, rest.3))
    ]
  ]

  chain-length :
      (n k c : ℕ) (cs : List ℕ)
      → IsChain read context c cs
      → length cs ≤ n
      → (m : ℕ) × (chain_length_from read context n k c ≡ some m) × (m + 1 ≡ k + length cs)
  unfolding chain_length_from
  chain-length zero k c cs (last e b) le = absurd (omega (arith, le))
  chain-length zero k c cs (more e b r) le = absurd (omega (arith, le))
  chain-length (suc n) k c cs (last e b) le = (k, ground (arith, e, b), omega arith)
  chain-length (suc n) k c cs (more {next = next} {cs = cs'} e b r) le =
      let rest = chain-length n (k + 1) next cs' r (omega (arith, le)) in
      (rest.0, ground (arith, e, b, rest.1), omega (arith, rest.2))

  -- The second loop reads the clusters of a chain.
  chain-clusters :
      (c : ℕ) (cs : List ℕ)
      → IsChain read context c cs
      → chain_from read context (length cs) c ≡ some cs
  unfolding chain_from
  chain-clusters c cs (last e b) = ground (arith, e)
  chain-clusters c cs (more {next = next} {cs = cs'} e b r) =
      ground (arith, e, chain-clusters next cs' r)

  -- The FAT leads to one chain.
  IsChain-same :
      (c : ℕ) (cs ds : List ℕ) → IsChain read context c cs → IsChain read context c ds → cs ≡ ds
  IsChain-same c cs ds (last e b) (last f d) = refl
  IsChain-same c cs ds (last e b) (more f d s) = absurd (ground (arith, e, b, f, d))
  IsChain-same c cs ds (more e b r) (last f d) = absurd (ground (arith, e, b, f, d))
  IsChain-same c cs ds (more {next = n} {cs = cs'} e b r) (more {next = m} {cs = ds'} f d s) =
      let same : m ≡ n = ground (arith, e, f) in
      ap (λ (xs : List ℕ). c ∷ xs)
        (IsChain-same n cs' ds' r (subst (λ x. IsChain read context x ds') same s))

  chain_found :
      (c : ℕ) (cs : List ℕ)
      → is_cluster context c ≡ true
      → IsChain read context c cs
      → length cs ≤ max_clusters context
      → cache_cluster_chain read context c ≡ some cs
  unfolding cache_cluster_chain
  chain_found c cs b chain le =
      let found = chain-length (max_clusters context) 1 c cs chain le in
      let count : found.0 ≡ length cs = omega (arith, found.2) in
      let second : chain_from read context found.0 c ≡ some cs =
        ap (λ (n : ℕ). chain_from read context n c) count ∙ chain-clusters c cs chain in
      ground (arith, b, found.1, second)

  IsCached : ℕ → List ℕ → Type 0
  IsCached c cs =
      (is_cluster context c ≡ true) × IsChain read context c cs × (length cs ≤ max_clusters context)

  IsCached-IsCached :
      (c : ℕ) (cs : List ℕ) → cache_cluster_chain read context c ≡ some cs → IsCached c cs
  unfolding cache_cluster_chain IsCached
  IsCached-IsCached c cs h = elim (Bool-cases (is_cluster context c)) [
    | inr b ↦ absurd (ground (arith, h, b))
    | inl b ↦ elim (Option-cases (chain_length_from read context (max_clusters context) 1 c)) [
      | inl e ↦ absurd (ground (arith, h, b, e))
      | inr (m, e) ↦
          let found = length-IsChain (max_clusters context) 1 c m e in
          let count : m ≡ length found.0 = omega (arith, found.2) in
          let second : chain_from read context m c ≡ some found.0 =
            ap (λ (n : ℕ). chain_from read context n c) count ∙ chain-clusters c found.0 found.1 in
          let same : found.0 ≡ cs = ground (arith, h, b, e, second) in
          (
            b,
            subst (IsChain read context c) same found.1,
            subst (λ xs. length xs ≤ max_clusters context) same found.3,
          )
    ]
  ]

-- `cache_cluster_chain` returns a chain exactly if its first cluster is one of data, the FAT leads from it
-- through the clusters of the chain, one after the other, to an entry that is none, and they are
-- not more than the limit; so a chain with a circle is refused.
pub cache_cluster_chain_lem :
    (read : ℕ → ℕ → Option (List ℕ)) (context : Context) (c : ℕ) (cs : List ℕ)
    → (cache_cluster_chain read context c ≡ some cs) ↔ (
        (is_cluster context c ≡ true)
        × IsChain read context c cs
        × (length cs ≤ max_clusters context))
unfolding IsCached
cache_cluster_chain_lem read context c cs =
    (IsCached-IsCached read context c cs, λ h. chain_found read context c cs h.0 h.1 h.2)
