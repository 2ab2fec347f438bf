-- ===== src/Blake2b/Counter.antt =====
-- The byte counter of BLAKE2b: two words of 64 bits.
use nebula_os.Common.{ℕ, ◌+◌, ◌*◌, ◌%◌, ◌^◌, ◌<◌, ◌≡◌, arith}
use nebula_os.Blake2b.{Chain, blake2b_increment_counter}

-- The number that the two words make.
abbrev pub count : Chain → ℕ
count c = c.t0 + 2 ^ 64 * c.t1

-- `blake2b_increment_counter` on words below 2 ^ 64, for an increment below 2 ^ 64, adds to the
-- 128-bit number that the two words make, with the carry from the lower word into the upper.
pub count-increment :
    (c : Chain) (inc : ℕ)
    → c.t0 < 2 ^ 64
    → c.t1 < 2 ^ 64
    → inc < 2 ^ 64
    → count (blake2b_increment_counter c inc) ≡ (count c + inc) % 2 ^ 128
unfolding blake2b_increment_counter
count-increment c inc a b h = ground arith
