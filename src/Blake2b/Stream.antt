-- ===== src/Blake2b/Stream.antt =====
-- `blake2b_update` of boot/limine/limine/common/crypt/blake2b.c against the reference.
use nebula_os.Common.{
  ℕ, suc, ◌+◌, ◌≤◌, ◌<◌, ◌≡◌, refl, ap, sym, ◌∙◌, List, [], ◌∷◌, ◌++◌, length, get_or, take, drop,
  arith, length-append, sub64, length-take, length-drop, take-append-drop, get_or-append, inl, inr,
  ltb-cases,
}
use nebula_os.Blake2b.{
  Chain, State, bytes, blake2b_increment_counter, blake2b_compress, fill_in, blocks, blake2b_update,
  block_bytes,
}
use nebula_os.Blake2b.Absorb.{
  Absorbed, compressed, absorb, absorb_room, absorb_filled, compress_cong, blocks-Left,
}

-- The state holds the reference's chain, and its buffer starts with the bytes that wait.
pub record Holds (v : Absorbed) (s : State) : Type 0 where
  pub chain_agrees : s.chain ≡ v.chain
  pub len_agrees : s.buf_len ≡ length v.pending
  pub bytes_agree : (i : ℕ) → i < s.buf_len → s.buf i ≡ get_or v.pending i 0
  pub len_in : s.buf_len ≤ 128

module _ (v : Absorbed) (s : State) (h : Holds v s) where
  -- The bytes fit in the block.
  update_room :
      (xs : List ℕ)
      → s.buf_len + length xs ≤ 128
      → Holds
          (record { chain = v.chain; pending = v.pending ++ xs })
          (record s { buf = fill_in s.buf_len xs s.buf; buf_len = s.buf_len + length xs })
  unfolding fill_in
  update_room xs fit = record {
    chain_agrees = h.chain_agrees;
    len_agrees = omega (arith, h.len_agrees, length-append v.pending xs);
    bytes_agree =
        λ i lt. ground (arith, h.len_agrees, h.bytes_agree i, get_or-append v.pending xs i 0);
    len_in = fit;
  }

  abbrev fill : ℕ
  fill = sub64 block_bytes s.buf_len

  fill_lem : fill + s.buf_len ≡ 128
  fill_lem = omega (arith, h.len_in)

  filled :
      (xs : List ℕ) (i : ℕ)
      → fill < length xs
      → i < 128
      → fill_in s.buf_len (take fill xs) s.buf i ≡ get_or (v.pending ++ take fill xs) i 0
  unfolding fill_in
  filled xs i more lt = ground (
    arith,
    h.len_agrees,
    h.bytes_agree i,
    fill_lem,
    length-take fill xs,
    get_or-append v.pending (take fill xs) i 0,
  )

  -- The first block is filled from the input and compressed.
  first_block :
      (xs : List ℕ)
      → fill < length xs
      → absorb v xs
        ≡ absorb
            (record {
              chain =
                  blake2b_compress
                    (blake2b_increment_counter s.chain block_bytes)
                    (fill_in s.buf_len (take fill xs) s.buf);
              pending = [];
            })
            (drop fill xs)
  unfolding compressed bytes
  first_block xs more =
      ap (absorb v) (sym (take-append-drop fill xs))
      ∙ absorb_filled v.chain v.pending (take fill xs) (drop fill xs)
          (omega (arith, length-take fill xs, fill_lem, h.len_agrees))
          (omega (arith, length-drop fill xs))
      ∙ ap (λ (c : Chain). absorb (record { chain = c; pending = [] }) (drop fill xs))
          (sym (
            ap
              (λ (c : Chain).
                blake2b_compress (blake2b_increment_counter c block_bytes)
                  (fill_in s.buf_len (take fill xs) s.buf))
              h.chain_agrees
            ∙ compress_cong (blake2b_increment_counter v.chain 128)
                (fill_in s.buf_len (take fill xs) s.buf) (bytes (v.pending ++ take fill xs))
                (λ i lt. filled xs i more lt)))

  first_Holds :
      (xs rest : List ℕ) (c : Chain) (buf : ℕ → ℕ)
      → length rest ≤ 128
      → Holds
          (record { chain = c; pending = rest })
          (record { chain = c; buf = fill_in 0 rest buf; buf_len = 0 + length rest })
  unfolding fill_in
  first_Holds xs rest c buf le = record {
    chain_agrees = refl;
    len_agrees = omega arith;
    bytes_agree = λ i lt. ground arith;
    len_in = omega (arith, le);
  }

  -- The first block, as the code has it.
  abbrev block : List ℕ → ℕ → ℕ
  block xs = fill_in s.buf_len (take fill xs) s.buf

  -- The chain and the input behind the loop.
  abbrev looped : List ℕ → Chain × List ℕ
  looped xs =
      blocks (length xs)
        (blake2b_compress (blake2b_increment_counter s.chain block_bytes) (block xs)) (drop fill xs)

  update_more :
      (xs : List ℕ)
      → fill < length xs
      → blake2b_update s xs ≡ record {
        chain = (looped xs).0;
        buf = fill_in 0 (looped xs).1 (block xs);
        buf_len = 0 + length (looped xs).1;
      }
  unfolding blake2b_update
  update_more xs more = ground arith

  update_fits :
      (xs : List ℕ)
      → 0 < length xs
      → length xs ≤ fill
      → blake2b_update s xs
        ≡ record s { buf = fill_in s.buf_len xs s.buf; buf_len = s.buf_len + length xs }
  unfolding blake2b_update
  update_fits xs pos fit = ground arith

  -- `blake2b_update` refines the absorption of the input's bytes one by one: a state that holds the
  -- reference's view holds it again after any input.
  pub update-Holds : (xs : List ℕ) → Holds (absorb v xs) (blake2b_update s xs)
  unfolding absorb
  update-Holds [] = unfold blake2b_update in h
  update-Holds (x ∷ xs) = elim (ltb-cases fill (suc (length xs))) [
    | inl (more, e) ↦
        let l =
          blocks-Left (suc (length xs))
            (blake2b_compress (blake2b_increment_counter s.chain block_bytes) (block (x ∷ xs)))
            (drop fill (x ∷ xs)) (omega (arith, length-drop fill (x ∷ xs))) in
        rw (update_more (x ∷ xs) more) (
          rw (first_block (x ∷ xs) more ∙ l.0)
            (first_Holds (x ∷ xs) (looped (x ∷ xs)).1 (looped (x ∷ xs)).0 (block (x ∷ xs)) l.1))
    | inr (fit, e) ↦ rw (update_fits (x ∷ xs) (omega arith) fit) (
        rw (absorb_room v.chain v.pending (x ∷ xs) (omega (arith, fill_lem, h.len_agrees)))
          (update_room (x ∷ xs) (omega (arith, fill_lem))))
  ]
