-- ===== src/Blake2b/Absorb.antt =====
-- A reference for the hash of boot/limine/limine/common/crypt/blake2b.c: it absorbs byte by byte.
use nebula_os.Common.{
  ℕ, zero, suc, ◌+◌, ◌-◌, ◌*◌, ◌^◌, ◌≤◌, ◌<◌, ◌≡◌, refl, ap, sym, ◌∙◌, List, [], ◌∷◌, ◌++◌, ◌==◌,
  if◌then◌else◌, length, get_or, take, drop, arith, length-append, length-take, length-drop,
  take-append-drop, inl, inr, ltb-cases,
}
use mathlib.Core.List.{append-nil, append_assoc}
use nebula_os.Blake2b.{
  Chain, bytes, blake2b_increment_counter, blake2b_compress, load_words, load64_le, mix, blocks,
  store_words, block_bytes,
}

-- What has been hashed, and the bytes that wait for their block to be full.
pub record Absorbed : Type 0 where
  pub chain : Chain
  pub pending : List ℕ

-- A full block, counted and compressed.
unfoldable pub compressed : Chain → List ℕ → Chain
compressed c block = blake2b_compress (blake2b_increment_counter c 128) (bytes block)

-- One byte: a full block is compressed only when a byte comes after it.
pub absorb_byte : Absorbed → ℕ → Absorbed
absorb_byte v b =
    if length v.pending == 128
    then record { chain = compressed v.chain v.pending; pending = b ∷ [] }
    else record v { pending = v.pending ++ b ∷ [] }

unfoldable pub absorb : Absorbed → List ℕ → Absorbed
absorb v [] = v
absorb v (b ∷ bs) = absorb (absorb_byte v b) bs

-- The digest: the last block is padded with zeros.
unfoldable pub digest : Absorbed → List ℕ
digest v =
    let c = record (blake2b_increment_counter v.chain (length v.pending)) { f0 = 2 ^ 64 - 1 } in
    (store_words ((blake2b_compress c (bytes v.pending)).h))

pub absorb-append : (v : Absorbed) (xs ys : List ℕ) → absorb v (xs ++ ys) ≡ absorb (absorb v xs) ys
unfolding absorb
absorb-append v [] ys = refl
absorb-append v (x ∷ xs) ys = absorb-append (absorb_byte v x) xs ys

-- Bytes that the block still takes.
pub absorb_room :
    (c : Chain) (ps xs : List ℕ)
    → length ps + length xs ≤ 128
    → absorb (record { chain = c; pending = ps }) xs ≡ record { chain = c; pending = ps ++ xs }
unfolding absorb absorb_byte
absorb_room c ps [] h =
    ap (λ (qs : List ℕ). record { chain = c; pending = qs }) (sym (append-nil ps))
absorb_room c ps (x ∷ xs) h = ground (
  arith,
  absorb_room c (ps ++ x ∷ []) xs (omega (arith, length-append ps (x ∷ []))),
  append_assoc ps (x ∷ []) xs,
)

-- A byte behind a full block.
absorb_full :
    (c : Chain) (ps : List ℕ) (x : ℕ) (xs : List ℕ)
    → length ps ≡ 128
    → absorb (record { chain = c; pending = ps }) (x ∷ xs)
      ≡ absorb (record { chain = compressed c ps; pending = [] }) (x ∷ xs)
unfolding absorb absorb_byte
absorb_full c ps x xs h = ground arith

load64_le_cong :
    (b b' : ℕ → ℕ) (at : ℕ)
    → ((i : ℕ) → i < 128 → b i ≡ b' i)
    → at + 8 ≤ 128
    → load64_le b at ≡ load64_le b' at
unfolding load64_le
load64_le_cong b b' at h le = omega (
  arith,
  h at (omega arith),
  h (at + 1) (omega arith),
  h (at + 2) (omega arith),
  h (at + 3) (omega arith),
  h (at + 4) (omega arith),
  h (at + 5) (omega arith),
  h (at + 6) (omega arith),
  h (at + 7) (omega arith),
)

load_words_cong :
    (n i : ℕ) (b b' : ℕ → ℕ)
    → ((j : ℕ) → j < 128 → b j ≡ b' j)
    → n + i ≤ 16
    → load_words n i b ≡ load_words n i b'
unfolding load_words
load_words_cong zero i b b' h le = refl
load_words_cong (suc n) i b b' h le = ground (
  arith,
  load64_le_cong b b' (i * 8) h (omega arith),
  load_words_cong n (i + 1) b b' h (omega arith),
)

-- `blake2b_compress` reads the 128 bytes of the block.
pub compress_cong :
    (c : Chain) (b b' : ℕ → ℕ)
    → ((i : ℕ) → i < 128 → b i ≡ b' i)
    → blake2b_compress c b ≡ blake2b_compress c b'
unfolding blake2b_compress
compress_cong c b b' h = ap (mix c) (load_words_cong 16 0 b b' h (omega arith))

get_or-take : (n : ℕ) (xs : List ℕ) (i : ℕ) → i < n → get_or (take n xs) i 0 ≡ get_or xs i 0
get_or-take zero xs i h = absurd (omega arith)
get_or-take (suc n) [] i h = refl
get_or-take (suc n) (x ∷ xs) zero h = refl
get_or-take (suc n) (x ∷ xs) (suc i) h = get_or-take n xs i (omega arith)

-- The reference behind a first part that fills the block.
pub absorb_filled :
    (c : Chain) (ps xs ys : List ℕ)
    → length ps + length xs ≡ 128
    → 0 < length ys
    → absorb (record { chain = c; pending = ps }) (xs ++ ys)
      ≡ absorb (record { chain = compressed c (ps ++ xs); pending = [] }) ys
absorb_filled c ps xs [] h pos = absurd (omega arith)
absorb_filled c ps xs (y ∷ ys) h pos =
    absorb-append (record { chain = c; pending = ps }) xs (y ∷ ys)
    ∙ ap (λ v. absorb v (y ∷ ys)) (absorb_room c ps xs (omega arith))
    ∙ absorb_full c (ps ++ xs) y ys (length-append ps xs ∙ h)

-- The reference at a whole block in the input.
absorb_block :
    (c : Chain) (xs : List ℕ)
    → 128 < length xs
    → absorb (record { chain = c; pending = [] }) xs
      ≡ absorb
          (record {
            chain = blake2b_compress (blake2b_increment_counter c block_bytes) (bytes xs);
            pending = [];
          })
          (drop block_bytes xs)
unfolding compressed bytes
absorb_block c xs h =
    ap (absorb (record { chain = c; pending = [] })) (sym (take-append-drop 128 xs))
    ∙ absorb_filled c [] (take 128 xs) (drop 128 xs) (omega (arith, length-take 128 xs))
        (omega (arith, length-drop 128 xs))
    ∙ ap (λ (c' : Chain). absorb (record { chain = c'; pending = [] }) (drop 128 xs))
        (compress_cong (blake2b_increment_counter c 128) (bytes (take 128 xs)) (bytes xs)
          (λ i lt. get_or-take 128 xs i lt))

abbrev pub Left : Chain → List ℕ → Chain × List ℕ → Type 0
Left c xs (c', rest) =
    (absorb (record { chain = c; pending = [] }) xs ≡ record { chain = c'; pending = rest })
    × (length rest ≤ 128)

pub blocks-Left :
    (fuel : ℕ) (c : Chain) (xs : List ℕ) → length xs ≤ fuel → Left c xs (blocks fuel c xs)
unfolding blocks
blocks-Left zero c xs h = (absorb_room c [] xs (omega arith), omega arith)
blocks-Left (suc fuel) c xs h =
    let c' = blake2b_compress (blake2b_increment_counter c block_bytes) (bytes xs) in
    let later = blocks-Left fuel c' (drop block_bytes xs) in
    elim (ltb-cases 128 (length xs)) [
      | inl (more, e) ↦
          let l = later (omega (arith, length-drop 128 xs)) in
          rw e (absorb_block c xs more ∙ l.0, l.1)
      | inr (done, e) ↦ rw e (absorb_room c [] xs (omega (arith, done)), done)
    ]
