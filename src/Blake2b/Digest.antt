-- ===== src/Blake2b/Digest.antt =====
-- The digest of boot/limine/limine/common/crypt/blake2b.c, and its independence of how the input
-- is cut into pieces.
use nebula_os.Common.{
  ℕ, ◌-◌, ◌^◌, ◌<◌, ◌≡◌, refl, ap, sym, ◌∙◌, List, [], ◌∷◌, ◌++◌, get_or, arith, get_or_outside,
  leb, ltb, ◌&&◌, if◌then◌else◌,
}
use nebula_os.Blake2b.{
  Chain, State, bytes, blake2b_increment_counter, blake2b_compress, blake2b_update, blake2b_final,
  store_words, blake2b, blake2b_init, block_bytes,
}
use nebula_os.Blake2b.Absorb.{Absorbed, absorb, digest, compress_cong, absorb-append}
use nebula_os.Blake2b.Stream.{Holds, update-Holds}

module _ (v : Absorbed) (s : State) (h : Holds v s) where
  padded :
      (i : ℕ)
      → i < 128
      → (if leb s.buf_len i && ltb i block_bytes then 0 else s.buf i) ≡ get_or v.pending i 0
  padded i lt = ground (arith, h.len_agrees, h.bytes_agree i, get_or_outside v.pending i 0)

  -- `blake2b_final` is the digest of the reference.
  pub final-digest : (blake2b_final s).0 ≡ digest v
  unfolding blake2b_final digest bytes
  final-digest =
      let c : Chain = record (blake2b_increment_counter s.chain s.buf_len) { f0 = 2 ^ 64 - 1 } in
      ap (λ (c' : Chain). store_words (c'.h))
        (compress_cong c (λ i. if leb s.buf_len i && ltb i block_bytes then 0 else s.buf i)
          (λ i. get_or v.pending i 0) padded)
      ∙ ap
          (λ (d : Chain).
            store_words
              ((blake2b_compress (record d { f0 = 2 ^ 64 - 1 }) (λ i. get_or v.pending i 0)).h))
          (ap (λ (d : Chain). blake2b_increment_counter d s.buf_len) h.chain_agrees
            ∙ ap (blake2b_increment_counter v.chain) h.len_agrees)

-- The reference before any input.
pub initial : Absorbed
initial = record { chain = blake2b_init.chain; pending = [] }

pub init-Holds : Holds initial blake2b_init
unfolding initial blake2b_init
init-Holds = record {
  chain_agrees = refl;
  len_agrees = refl;
  bytes_agree = λ i lt. absurd (omega arith);
  len_in = omega arith;
}

-- `blake2b` is the digest of the reference behind the input.
pub blake2b-digest : (xs : List ℕ) → blake2b xs ≡ digest (absorb initial xs)
unfolding blake2b
blake2b-digest xs =
    final-digest (absorb initial xs) (blake2b_update blake2b_init xs)
      (update-Holds initial blake2b_init init-Holds xs)

-- The pieces of an input, hashed one after the other, and put together.
abbrev pub update_all : State → List (List ℕ) → State
update_all s [] = s
update_all s (xs ∷ xss) = update_all (blake2b_update s xs) xss

abbrev pub concat : List (List ℕ) → List ℕ
concat [] = []
concat (xs ∷ xss) = xs ++ concat xss

update_all-Holds :
    (v : Absorbed) (s : State) (xss : List (List ℕ))
    → Holds v s
    → Holds (absorb v (concat xss)) (update_all s xss)
unfolding absorb
update_all-Holds v s [] h = h
update_all-Holds v s (xs ∷ xss) h =
    rw (absorb-append v xs (concat xss))
      (update_all-Holds (absorb v xs) (blake2b_update s xs) xss (update-Holds v s h xs))

-- An input cut into any pieces, with empty ones and pieces of any length among them, has the
-- digest that `blake2b` computes for the whole.
pub update_all-concat :
    (xss : List (List ℕ)) → (blake2b_final (update_all blake2b_init xss)).0 ≡ blake2b (concat xss)
update_all-concat xss =
    final-digest (absorb initial (concat xss)) (update_all blake2b_init xss)
      (update_all-Holds initial blake2b_init xss init-Holds)
    ∙ sym (blake2b-digest (concat xss))
