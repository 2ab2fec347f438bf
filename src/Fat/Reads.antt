-- ===== src/Fat/Reads.antt =====
-- `read_cluster_chain` of boot/limine/limine/common/fs/fat32.s2.c gives the bytes of the clusters.
use native.Mathlib.Nat.{
  div-add-mod, mod-lt, mul_comm, mul-add-div_right, mul-add-mod_self_right, div-eq_of_lt,
  mod-eq_of_lt,
}
use nebula_os.Common.{
  ℕ, zero, suc, ◌+◌, ◌-◌, ◌*◌, ◌/◌, ◌%◌, ◌^◌, ◌≤◌, ◌<◌, ◌≡◌, ◌≢◌, ◌⊎◌, inl, inr, refl, sym, ap, ◌∙◌,
  Bool, true, false, Option, some, none, List, u64, get_or, get_elem?, arith, Option-cases,
  ltb-cases,
}
use nebula_os.Fat.{
  Context, cluster_base, block_size, put_bytes, chunk_of, read_at, read_chunk, read_chain_from,
  read_cluster_chain,
}

-- Reads that succeed give the bytes of the volume.
abbrev pub IsHonest : (ℕ → ℕ → Option (List ℕ)) → (ℕ → ℕ) → Type 0
IsHonest read byte =
    (loc n : ℕ) (bytes : List ℕ)
    → read loc n ≡ some bytes
    → (i : ℕ) → i < n
    → get_or bytes i 0 ≡ byte (loc + i)

-- The byte of the file at the address, by the chain of its clusters; 0 behind them.
pub file_byte : (ℕ → ℕ) → Context → List ℕ → ℕ → ℕ
file_byte byte context chain a = elim (get_elem? chain (a / block_size context)) [
  | none ↦ 0
  | some cluster ↦ byte (cluster_base context cluster + a % block_size context)
]

block_lem : (q r size : ℕ) → r < size → ((q * size + r) / size ≡ q) × ((q * size + r) % size ≡ r)
block_lem q r size lt = (
  mul-add-div_right (omega (arith, lt)) q r ∙ omega (arith, div-eq_of_lt lt),
  mul-add-mod_self_right q size r ∙ mod-eq_of_lt lt,
)

module _ (read : ℕ → ℕ → Option (List ℕ)) (byte : ℕ → ℕ) (context : Context)
    (honest : IsHonest read byte) (pos : 0 < block_size context) (chain : List ℕ) where
  abbrev size : ℕ
  size = block_size context

  -- The buffer has changed between `progress` and `count` only, and if the result is true it has the
  -- bytes of the file there, all of them in the chain.
  pub record IsRead (loc count progress : ℕ) (buf : ℕ → ℕ) (out : Bool × (ℕ → ℕ)) : Type 0 where
    pub before : (i : ℕ) → i < progress → out.1 i ≡ buf i
    pub behind : (i : ℕ) → count ≤ i → out.1 i ≡ buf i
    pub bytes :
        out.0 ≡ true
        → (i : ℕ) → progress ≤ i
        → i < count
        → (out.1 i ≡ file_byte byte context chain (loc + i))
          × (get_elem? chain ((loc + i) / size) ≢ none)

  -- The parts of one round.
  record Round (at left chunk : ℕ) : Type 0 where
    some_byte : 0 < chunk
    in_left : chunk ≤ left
    in_block : at % size + chunk ≤ size
    where_is : at / size * size + at % size ≡ at

  chunk-Round : (at left : ℕ) → 0 < left → Round at left (chunk_of size (at % size) left)
  unfolding chunk_of
  chunk-Round at left left_pos =
      let lt = mod-lt at pos in
      record {
        some_byte = ground (arith, lt, left_pos);
        in_left = ground arith;
        in_block = ground (arith, lt);
        where_is = omega (arith, div-add-mod at size, mul_comm (at / size) size);
      }

  read_chunk-bytes :
      (block offset chunk : ℕ) (bytes : List ℕ)
      → read_chunk read context chain block offset chunk ≡ some bytes
      → (cluster : ℕ) × (get_elem? chain block ≡ some cluster)
        × ((i : ℕ)
            → i < chunk
            → get_or bytes i 0 ≡ byte (cluster_base context cluster + offset + i))
  unfolding read_chunk
  read_chunk-bytes block offset chunk bytes h = elim (Option-cases (get_elem? chain block)) [
    | inl e ↦ absurd (ground (arith, h, e))
    | inr (cluster, e) ↦ (
      cluster,
      e,
      honest (cluster_base context cluster + offset) chunk bytes (ground (arith, h, e)),
    )
  ]

  read_at-none :
      (at left : ℕ)
      → read_chunk read context chain (at / size) (at % size) (chunk_of size (at % size) left)
        ≡ none
      → read_at read context chain at left ≡ none
  unfolding read_at
  read_at-none at left e = ground (arith, e)

  read_at-some :
      (at left : ℕ) (bytes : List ℕ)
      → read_chunk read context chain (at / size) (at % size) (chunk_of size (at % size) left)
        ≡ some bytes
      → read_at read context chain at left ≡ some (chunk_of size (at % size) left, bytes)
  unfolding read_at
  read_at-some at left bytes e = ground (arith, e)

  put_lem :
      (progress chunk i : ℕ) (bytes : List ℕ) (buf : ℕ → ℕ)
      → ((progress ≤ i)
          → (i < progress + chunk)
          → put_bytes progress chunk bytes buf i ≡ get_or bytes (i - progress) 0)
        × ((i < progress) ⊎ (progress + chunk ≤ i) → put_bytes progress chunk bytes buf i ≡ buf i)
  unfolding put_bytes
  put_lem progress chunk i bytes buf = (λ lo hi. ground (arith, lo, hi), λ out. ground (arith, out))

  file_byte-some :
      (a cluster : ℕ)
      → get_elem? chain (a / size) ≡ some cluster
      → file_byte byte context chain a ≡ byte (cluster_base context cluster + a % size)
  unfolding file_byte
  file_byte-some a cluster e = rw (file_byte, e) refl

  -- What a round puts into the buffer.
  chunk_byte :
      (loc count progress i : ℕ) (bytes : List ℕ) (buf : ℕ → ℕ)
      → progress < count
      → read_chunk read context chain
          ((loc + progress) / size)
          ((loc + progress) % size)
          (chunk_of size ((loc + progress) % size) (count - progress))
        ≡ some bytes
      → progress ≤ i
      → i < progress + chunk_of size ((loc + progress) % size) (count - progress)
      → (put_bytes progress (chunk_of size ((loc + progress) % size) (count - progress)) bytes buf i
          ≡ file_byte byte context chain (loc + i))
        × (get_elem? chain ((loc + i) / size) ≢ none)
  chunk_byte loc count progress i bytes buf lt h lo hi =
      let at = loc + progress in
      let chunk = chunk_of size (at % size) (count - progress) in
      let round = chunk-Round at (count - progress) (omega (arith, lt)) in
      let got = read_chunk-bytes (at / size) (at % size) chunk bytes h in
      let index = i - progress in
      let place : at / size * size + (at % size + index) ≡ loc + i =
        omega (arith, round.where_is, lo) in
      let block =
        block_lem (at / size) (at % size + index) size (omega (arith, round.in_block, lo, hi)) in
      let q : (loc + i) / size ≡ at / size = ap (λ (a : ℕ). a / size) (sym place) ∙ block.0 in
      let r : (loc + i) % size ≡ at % size + index =
        ap (λ (a : ℕ). a % size) (sym place) ∙ block.1 in
      let elem : get_elem? chain ((loc + i) / size) ≡ some got.0 =
        ap (λ (b : ℕ). get_elem? chain b) q ∙ got.1 in
      let address : cluster_base context got.0 + at % size + index
          ≡ cluster_base context got.0 + (loc + i) % size =
        omega (arith, r) in
      (
        (put_lem progress chunk i bytes buf).0 lo hi
            ∙ got.2 index (omega (arith, lo, hi))
            ∙ ap byte address
            ∙ sym (file_byte-some (loc + i) got.0 elem),
        λ e. absurd (ground (arith, e, elem)),
      )

  one_more :
      (loc count progress : ℕ) (bytes : List ℕ) (buf : ℕ → ℕ) (out : Bool × (ℕ → ℕ))
      → progress < count
      → read_chunk read context chain
          ((loc + progress) / size)
          ((loc + progress) % size)
          (chunk_of size ((loc + progress) % size) (count - progress))
        ≡ some bytes
      → IsRead loc count
          (progress + chunk_of size ((loc + progress) % size) (count - progress))
          (put_bytes progress
            (chunk_of size ((loc + progress) % size) (count - progress))
            bytes
            buf)
          out
      → IsRead loc count progress buf out
  one_more loc count progress bytes buf out lt h later =
      let at = loc + progress in
      let chunk = chunk_of size (at % size) (count - progress) in
      let round = chunk-Round at (count - progress) (omega (arith, lt)) in
      record {
        before = λ i b.
            later.before i (omega (arith, b)) ∙ (put_lem progress chunk i bytes buf).1 (inl b);
        behind = λ i b.
            later.behind i b
            ∙ (put_lem progress chunk i bytes buf).1 (inr (omega (arith, b, round.in_left, lt)));
        bytes = λ t i lo hi. elim (ltb-cases i (progress + chunk)) [
          | inr (b, e) ↦ later.bytes t i b hi
          | inl (b, e) ↦
              let here = chunk_byte loc count progress i bytes buf lt h lo b in
              (later.before i b ∙ here.0, here.1)
        ];
      }

  nothing_left :
      (loc count progress : ℕ) (buf : ℕ → ℕ) (b : Bool)
      → (b ≡ true → count ≤ progress)
      → IsRead loc count progress buf (b, buf)
  nothing_left loc count progress buf b le = record {
    before = λ i lt. refl;
    behind = λ i lt. refl;
    bytes = λ e i lo hi. absurd (omega (arith, le e, lo, hi));
  }

  round-step :
      (fuel loc count progress chunk : ℕ) (bytes : List ℕ) (buf : ℕ → ℕ)
      → loc + count ≤ 2 ^ 64
      → progress < count
      → read_at read context chain (loc + progress) (count - progress) ≡ some (chunk, bytes)
      → read_chain_from read context chain (suc fuel) loc count progress buf
        ≡ read_chain_from read context chain fuel loc count
            (progress + chunk)
            (put_bytes progress chunk bytes buf)
  unfolding read_chain_from
  round-step fuel loc count progress chunk bytes buf fit lt e = elim (ltb-cases progress count) [
    | inr (ge, b) ↦ absurd (omega (arith, ge, lt))
    | inl (lt', b) ↦
        let at64 : u64 (loc + progress) ≡ loc + progress = omega (arith, fit, lt) in
        rw (read_chain_from, b, at64, e) refl
  ]

  Read : ℕ → ℕ → ℕ → ℕ → (ℕ → ℕ) → Type 0
  Read fuel loc count progress buf =
      (out : Bool × (ℕ → ℕ)) × (read_chain_from read context chain fuel loc count progress buf
        ≡ some out)
      × IsRead loc count progress buf out

  Read-chain_from-Read :
      (fuel loc count progress : ℕ) (buf : ℕ → ℕ)
      → loc + count ≤ 2 ^ 64
      → count ≤ progress + fuel
      → progress ≤ count
      → Read fuel loc count progress buf
  unfolding read_chain_from Read
  Read-chain_from-Read zero loc count progress buf fit enough le = elim (ltb-cases progress count) [
    | inl (lt, b) ↦ absurd (omega (arith, lt, enough))
    | inr (ge, b) ↦ (
      (true, buf),
      rw (read_chain_from, b) refl,
      nothing_left loc count progress buf true (λ e. ge),
    )
  ]
  Read-chain_from-Read (suc fuel) loc count progress buf fit enough le =
      elim (ltb-cases progress count) [
        | inr (ge, b) ↦ (
          (true, buf),
          rw (read_chain_from, b) refl,
          nothing_left loc count progress buf true (λ e. ge),
        )
        | inl (lt, b) ↦
            let at64 : u64 (loc + progress) ≡ loc + progress = omega (arith, fit, lt) in
            let at = loc + progress in
            let chunk = chunk_of size (at % size) (count - progress) in
            let round = chunk-Round at (count - progress) (omega (arith, lt)) in
            let later = λ (bytes : List ℕ).
              Read-chain_from-Read fuel loc count (progress + chunk)
                (put_bytes progress chunk bytes buf) fit (omega (arith, enough, round.some_byte))
                (omega (arith, round.in_left, lt)) in
            elim (Option-cases (read_chunk read context chain (at / size) (at % size) chunk)) [
              | inl e ↦ (
                (false, buf),
                rw (read_chain_from, b, at64, read_at-none at (count - progress) e) refl,
                nothing_left loc count progress buf false (λ w. absurd (cc w)),
              )
              | inr (bytes, e) ↦
                  let rest = later bytes in
                  (
                    rest.0,
                    round-step fuel loc count progress chunk bytes buf fit lt
                          (read_at-some at (count - progress) bytes e)
                        ∙ rest.1,
                    one_more loc count progress bytes buf rest.0 lt e rest.2,
                  )
            ]
      ]

-- `read_cluster_chain` on a volume whose reads are honest, with clusters that are not empty and for
-- `loc + count` of at most 2 ^ 64, ends; it does not touch the buffer behind
-- `count` bytes, and if its result is true the buffer has the bytes of the file from `loc` on, each from
-- the cluster of the chain in which it lies, and none of them behind the chain.
pub read_cluster_chain-IsRead :
    (read : ℕ → ℕ → Option (List ℕ)) (byte : ℕ → ℕ) (context : Context)
    (honest : IsHonest read byte) (pos : 0 < block_size context) (chain : List ℕ) (buf : ℕ → ℕ)
    (loc count : ℕ)
    → loc + count ≤ 2 ^ 64
    → (out : Bool × (ℕ → ℕ)) × (read_cluster_chain read context chain buf loc count ≡ some out)
      × IsRead read byte context honest pos chain loc count 0 buf out
unfolding read_cluster_chain Read
read_cluster_chain-IsRead read byte context honest pos chain buf loc count fit =
    Read-chain_from-Read read byte context honest pos chain count loc count 0 buf fit (omega arith)
      (omega arith)
