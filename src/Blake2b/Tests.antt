-- ===== src/Blake2b/Tests.antt =====
-- Digests of texts, and instances of the theorems on the hash.
use nebula_os.Common.{◌≡◌, ◌-◌, ◌^◌, refl, take, List, ℕ, [], ◌∷◌, ok}
use nebula_os.Blake2b.{
  Chain, blake2b, blake2b_init, blake2b_update, blake2b_final, mix_param, bytes, load64_le, fill_in,
  blocks, blake2b_compress, blake2b_increment_counter, store_words, store64_le, load_words, mix,
  rounds, round, g, add_to, xor_rotate, sigma, rotr64, fold_words,
}
use nebula_os.Blake2b.Absorb.{absorb}
use nebula_os.Blake2b.Stream.{Holds, update-Holds}
use nebula_os.Blake2b.Digest.{initial, init-Holds, update_all, concat, update_all-concat}
use nebula_os.Blake2b.Counter.{count}
use nebula_os.Blake2b.Filter.{Handle, blake2b_open, read_on, check_hash-blake2b, IsChecked, reads}

abbrev abc : List ℕ
abc = b'a' ∷ b'b' ∷ b'c' ∷ []

-- RFC 7693, appendix A.
abc_runs : take 8 (blake2b abc) ≡ 0xba ∷ 0x80 ∷ 0xa5 ∷ 0x3f ∷ 0x98 ∷ 0x1c ∷ 0x4d ∷ 0x0d ∷ []
unfolding blake2b blake2b_init blake2b_update blake2b_final mix_param bytes load64_le fill_in blocks
    blake2b_compress blake2b_increment_counter store_words store64_le load_words mix rounds round g
    add_to xor_rotate sigma rotr64 fold_words
abc_runs = refl

abbrev worn : Chain
worn = record { h = []; t0 = 2 ^ 64 - 1; t1 = 0; f0 = 0; f1 = 0 }

update-Holds_example : Holds (absorb initial abc) (blake2b_update blake2b_init abc)
update-Holds_example = update-Holds initial blake2b_init init-Holds abc

update_all-concat_example :
    (blake2b_final (update_all blake2b_init (abc ∷ [] ∷ abc ∷ []))).0
    ≡ blake2b (concat (abc ∷ [] ∷ abc ∷ []))
update_all-concat_example = update_all-concat (abc ∷ [] ∷ abc ∷ [])

-- A file that gives a zero byte for each read.
abbrev zeros : ℕ → ℕ → List ℕ
zeros loc count = 0 ∷ []

check_hash-blake2b_example :
    (h : Handle) × (read_on zeros 0 (1 ∷ 1 ∷ []) blake2b_open ≡ ok (reads zeros 0 (1 ∷ 1 ∷ []), h))
    × IsChecked (concat (reads zeros 0 (1 ∷ 1 ∷ []))) h
check_hash-blake2b_example = check_hash-blake2b zeros (1 ∷ 1 ∷ [])
