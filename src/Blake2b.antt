-- ===== src/Blake2b.antt =====
-- boot/limine/limine/common/crypt/blake2b.c: the hash that a configuration file's paths are
-- checked with. Memory that a function reads is a function from the offset to the byte, and an
-- input is the list of its bytes.
pub mod Absorb
pub mod Stream
pub mod Digest
pub mod Filter
pub mod Counter
pub mod Tests
use nebula_os.Common.{
  ℕ, zero, suc, ◌+◌, ◌-◌, ◌*◌, ◌/◌, ◌%◌, ◌^◌, Bool, true, false, List, [], ◌∷◌, ◌++◌, ◌&&◌, ◌==◌,
  leb, ltb, if◌then◌else◌, length, get_or, take, drop, set, u8, u64, sub64, ◌<<<◌, ◌>>>◌, bit_or,
  bit_xor,
}

abbrev pub block_bytes : ℕ
block_bytes = 128

abbrev pub blake2b_iv : List ℕ
blake2b_iv =
    0x6a09e667f3bcc908 ∷ 0xbb67ae8584caa73b ∷ 0x3c6ef372fe94f82b ∷ 0xa54ff53a5f1d36f1
    ∷ 0x510e527fade682d1 ∷ 0x9b05688c2b3e6c1f ∷ 0x1f83d9abfb41bd6b ∷ 0x5be0cd19137e2179 ∷ []

abbrev pub blake2b_sigma : List (List ℕ)
blake2b_sigma =
    (0 ∷ 1 ∷ 2 ∷ 3 ∷ 4 ∷ 5 ∷ 6 ∷ 7 ∷ 8 ∷ 9 ∷ 10 ∷ 11 ∷ 12 ∷ 13 ∷ 14 ∷ 15 ∷ [])
    ∷ (14 ∷ 10 ∷ 4 ∷ 8 ∷ 9 ∷ 15 ∷ 13 ∷ 6 ∷ 1 ∷ 12 ∷ 0 ∷ 2 ∷ 11 ∷ 7 ∷ 5 ∷ 3 ∷ [])
    ∷ (11 ∷ 8 ∷ 12 ∷ 0 ∷ 5 ∷ 2 ∷ 15 ∷ 13 ∷ 10 ∷ 14 ∷ 3 ∷ 6 ∷ 7 ∷ 1 ∷ 9 ∷ 4 ∷ [])
    ∷ (7 ∷ 9 ∷ 3 ∷ 1 ∷ 13 ∷ 12 ∷ 11 ∷ 14 ∷ 2 ∷ 6 ∷ 5 ∷ 10 ∷ 4 ∷ 0 ∷ 15 ∷ 8 ∷ [])
    ∷ (9 ∷ 0 ∷ 5 ∷ 7 ∷ 2 ∷ 4 ∷ 10 ∷ 15 ∷ 14 ∷ 1 ∷ 11 ∷ 12 ∷ 6 ∷ 8 ∷ 3 ∷ 13 ∷ [])
    ∷ (2 ∷ 12 ∷ 6 ∷ 10 ∷ 0 ∷ 11 ∷ 8 ∷ 3 ∷ 4 ∷ 13 ∷ 7 ∷ 5 ∷ 15 ∷ 14 ∷ 1 ∷ 9 ∷ [])
    ∷ (12 ∷ 5 ∷ 1 ∷ 15 ∷ 14 ∷ 13 ∷ 4 ∷ 10 ∷ 0 ∷ 7 ∷ 6 ∷ 3 ∷ 9 ∷ 2 ∷ 8 ∷ 11 ∷ [])
    ∷ (13 ∷ 11 ∷ 7 ∷ 14 ∷ 12 ∷ 1 ∷ 3 ∷ 9 ∷ 5 ∷ 0 ∷ 15 ∷ 4 ∷ 8 ∷ 6 ∷ 2 ∷ 10 ∷ [])
    ∷ (6 ∷ 15 ∷ 14 ∷ 9 ∷ 11 ∷ 3 ∷ 0 ∷ 8 ∷ 12 ∷ 2 ∷ 13 ∷ 7 ∷ 1 ∷ 4 ∷ 10 ∷ 5 ∷ [])
    ∷ (10 ∷ 2 ∷ 8 ∷ 4 ∷ 7 ∷ 6 ∷ 1 ∷ 5 ∷ 15 ∷ 11 ∷ 9 ∷ 14 ∷ 3 ∷ 12 ∷ 13 ∷ 0 ∷ [])
    ∷ (0 ∷ 1 ∷ 2 ∷ 3 ∷ 4 ∷ 5 ∷ 6 ∷ 7 ∷ 8 ∷ 9 ∷ 10 ∷ 11 ∷ 12 ∷ 13 ∷ 14 ∷ 15 ∷ [])
    ∷ (14 ∷ 10 ∷ 4 ∷ 8 ∷ 9 ∷ 15 ∷ 13 ∷ 6 ∷ 1 ∷ 12 ∷ 0 ∷ 2 ∷ 11 ∷ 7 ∷ 5 ∷ 3 ∷ [])
    ∷ []

-- `h`, `t` and `f` of `struct blake2b_state`.
pub record Chain : Type 0 where
  pub h : List ℕ
  pub t0 : ℕ
  pub t1 : ℕ
  pub f0 : ℕ
  pub f1 : ℕ

-- `struct blake2b_state`, without `last_node`, which nothing reads.
pub record State : Type 0 where
  pub chain : Chain
  pub buf : ℕ → ℕ
  pub buf_len : ℕ

-- The bytes of an array.
unfoldable pub bytes : List ℕ → ℕ → ℕ
bytes xs i = get_or xs i 0

unfoldable pub load64_le : (ℕ → ℕ) → ℕ → ℕ
load64_le src i =
    src i
    + (src (i + 1) <<< 8)
    + (src (i + 2) <<< 16)
    + (src (i + 3) <<< 24)
    + (src (i + 4) <<< 32)
    + (src (i + 5) <<< 40)
    + (src (i + 6) <<< 48)
    + (src (i + 7) <<< 56)

-- The bytes that `store64_le` writes.
unfoldable pub store64_le : ℕ → List ℕ
store64_le val =
    u8 val
    ∷ u8 (val >>> 8)
    ∷ u8 (val >>> 16)
    ∷ u8 (val >>> 24)
    ∷ u8 (val >>> 32)
    ∷ u8 (val >>> 40)
    ∷ u8 (val >>> 48)
    ∷ u8 (val >>> 56)
    ∷ []

unfoldable pub blake2b_increment_counter : Chain → ℕ → Chain
blake2b_increment_counter c inc =
    let t0 = u64 (c.t0 + inc) in
    record c { t0 = t0; t1 = if ltb t0 inc then u64 (c.t1 + 1) else c.t1 }

unfoldable pub rotr64 : ℕ → ℕ → ℕ
rotr64 w c = bit_or (w >>> c) (u64 (w <<< (64 - c)))

-- `blake2b_sigma[r][k]`
unfoldable pub sigma : ℕ → ℕ → ℕ
sigma r k = get_or (get_or blake2b_sigma r []) k 0

-- `x = x + y`, and `x = rotr64(x ^ y, n)`, on the words of `v`.
unfoldable pub add_to : ℕ → ℕ → List ℕ → List ℕ
add_to x y v = set v x (u64 (get_or v x 0 + y))

unfoldable pub xor_rotate : ℕ → ℕ → ℕ → List ℕ → List ℕ
unfolding rotr64
xor_rotate x y n v = set v x (rotr64 (bit_xor (get_or v x 0) (get_or v y 0)) n)

-- `G`
unfoldable pub g : List ℕ → ℕ → ℕ → ℕ → ℕ → ℕ → ℕ → List ℕ → List ℕ
unfolding add_to xor_rotate sigma
g m r i a b c d v =
    let v = add_to a (get_or v b 0 + get_or m (sigma r (2 * i + 0)) 0) v in
    let v = xor_rotate d a 32 v in
    let v = add_to c (get_or v d 0) v in
    let v = xor_rotate b c 24 v in
    let v = add_to a (get_or v b 0 + get_or m (sigma r (2 * i + 1)) 0) v in
    let v = xor_rotate d a 16 v in let v = add_to c (get_or v d 0) v in xor_rotate b c 63 v

-- `ROUND`
unfoldable pub round : List ℕ → ℕ → List ℕ → List ℕ
unfolding g
round m r v =
    let v = g m r 0 0 4 8 12 v in
    let v = g m r 1 1 5 9 13 v in
    let v = g m r 2 2 6 10 14 v in
    let v = g m r 3 3 7 11 15 v in
    let v = g m r 4 0 5 10 15 v in
    let v = g m r 5 1 6 11 12 v in let v = g m r 6 2 7 8 13 v in g m r 7 3 4 9 14 v

-- `ROUND(r)` to `ROUND(r + n - 1)`
unfoldable pub rounds : ℕ → List ℕ → ℕ → List ℕ → List ℕ
unfolding round
rounds zero m r v = v
rounds (suc n) m r v = rounds n m (r + 1) (round m r v)

-- The words of the block from the `i`th on.
unfoldable pub load_words : ℕ → ℕ → (ℕ → ℕ) → List ℕ
load_words zero i block = []
load_words (suc n) i block = load64_le block (i * 8) ∷ load_words n (i + 1) block

-- `h[i] ^ v[i] ^ v[i + 8]`, from `i` on.
unfoldable pub fold_words : ℕ → List ℕ → List ℕ → List ℕ
fold_words i [] v = []
fold_words i (h ∷ hs) v =
    bit_xor (bit_xor h (get_or v i 0)) (get_or v (i + 8) 0) ∷ fold_words (i + 1) hs v

-- The rounds and the update of `h`, for the words of the block.
unfoldable pub mix : Chain → List ℕ → Chain
unfolding rounds fold_words
mix c m =
    let v =
      c.h
      ++ 0x6a09e667f3bcc908
        ∷ 0xbb67ae8584caa73b
        ∷ 0x3c6ef372fe94f82b
        ∷ 0xa54ff53a5f1d36f1
        ∷ bit_xor 0x510e527fade682d1 c.t0
        ∷ bit_xor 0x9b05688c2b3e6c1f c.t1
        ∷ bit_xor 0x1f83d9abfb41bd6b c.f0
        ∷ bit_xor 0x5be0cd19137e2179 c.f1
        ∷ [] in
    record c { h = fold_words 0 c.h (rounds 12 m 0 v) }

unfoldable pub blake2b_compress : Chain → (ℕ → ℕ) → Chain
blake2b_compress c block = mix c (load_words 16 0 block)

-- The first bytes of `param`: its `digest_length`, `key_length`, `fan_out` and `depth`.
abbrev pub param : List ℕ
param = 64 ∷ 0 ∷ 1 ∷ 1 ∷ []

-- `h[i] ^= load64_le((uint8_t *)&param + 8 * i)`
unfoldable pub mix_param : ℕ → List ℕ → List ℕ
mix_param i [] = []
mix_param i (h ∷ hs) = bit_xor h (load64_le (bytes param) (8 * i)) ∷ mix_param (i + 1) hs

unfoldable pub blake2b_init : State
unfolding mix_param
blake2b_init = record {
  chain = record { h = mix_param 0 blake2b_iv; t0 = 0; t1 = 0; f0 = 0; f1 = 0 };
  buf = λ i. 0;
  buf_len = 0;
}

-- `memcpy(buf + at, xs, …)`
unfoldable pub fill_in : ℕ → List ℕ → (ℕ → ℕ) → ℕ → ℕ
fill_in at xs buf i = if leb at i && ltb i (at + length xs) then get_or xs (i - at) 0 else buf i

-- The loop of `blake2b_update` over whole blocks, on fuel: the chain, and what is left.
unfoldable pub blocks : ℕ → Chain → List ℕ → Chain × List ℕ
blocks zero c xs = (c, xs)
blocks (suc fuel) c xs =
    let next =
      blocks fuel (blake2b_compress (blake2b_increment_counter c block_bytes) (bytes xs))
        (drop block_bytes xs) in
    if ltb block_bytes (length xs) then next else (c, xs)

unfoldable pub blake2b_update : State → List ℕ → State
blake2b_update s xs =
    let left = s.buf_len in
    let fill = sub64 block_bytes left in
    let buf = fill_in left (take fill xs) s.buf in
    let c = blake2b_compress (blake2b_increment_counter s.chain block_bytes) buf in
    let (c', rest) = blocks (length xs) c (drop fill xs) in
    if length xs == 0
    then s
    else if ltb fill (length xs)
    then record { chain = c'; buf = fill_in 0 rest buf; buf_len = 0 + length rest }
    else record s { buf = fill_in left xs s.buf; buf_len = left + length xs }

-- The bytes of the words.
unfoldable pub store_words : List ℕ → List ℕ
store_words [] = []
store_words (h ∷ hs) = store64_le h ++ store_words hs

-- `blake2b_final`: the bytes of the digest, and the state that it leaves, with its counter, flag and
-- chain changed and the rest of its buffer cleared.
unfoldable pub blake2b_final : State → List ℕ × State
blake2b_final s =
    let c = record (blake2b_increment_counter s.chain s.buf_len) { f0 = 2 ^ 64 - 1 } in
    let buf : ℕ → ℕ = λ i. if leb s.buf_len i && ltb i block_bytes then 0 else s.buf i in
    let c' = blake2b_compress c buf in (store_words c'.h, record s { chain = c'; buf = buf })

unfoldable pub blake2b : List ℕ → List ℕ
blake2b xs = (blake2b_final (blake2b_update blake2b_init xs)).0
