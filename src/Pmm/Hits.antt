-- ===== src/Pmm/Hits.antt =====
-- What a memory map says of an address: how often the map gives it a type. This is the view in
-- which the operations of boot/limine/limine/common/mm/pmm.s2.c are specified.
use nebula_os.Common.{
  ℕ, ◌+◌, ◌≤◌, ◌<◌, ◌≡◌, refl, List, [], ◌∷◌, ◌&&◌, ◌==◌, leb, ltb, if◌then◌else◌, arith, min,
}
use nebula_os.Pmm.Entry.{Entry, usable, sum_of}

-- 1 if the address `a` lies in the entry.
unfoldable pub cov : ℕ → Entry → ℕ
cov a e = if leb e.base a && ltb a (e.base + e.length) then 1 else 0

abbrev pub cov_of : ℕ → ℕ → Entry → ℕ
cov_of t a e = if e.type == t then cov a e else 0

abbrev pub cov_other : ℕ → Entry → ℕ
cov_other a e = if e.type == usable then 0 else cov a e

-- How often the map gives the address `a` the type `t`.
abbrev pub hits : ℕ → ℕ → List Entry → ℕ
hits t a = sum_of (cov_of t a)

-- How often it gives `a` a type other than usable, and how often any type.
abbrev pub blocked : ℕ → List Entry → ℕ
blocked a = sum_of (cov_other a)

abbrev pub total : ℕ → List Entry → ℕ
total a = sum_of (cov a)

abbrev pub NonEmpty : Entry → Type 0
NonEmpty e = 0 < e.length

-- A usable address is in one entry only.
abbrev pub IsExclusive : List Entry → Type 0
IsExclusive m = (a : ℕ) → 0 < hits usable a m → total a m ≡ 1

-- 1 if `a` is in a usable entry and in no other.
abbrev pub live : ℕ → List Entry → ℕ
live a m = if blocked a m == 0 then min 1 (hits usable a m) else 0

pub total-split : (a : ℕ) (m : List Entry) → total a m ≡ hits usable a m + blocked a m
unfolding sum_of
total-split a [] = refl
total-split a (e ∷ m) = ground (arith, total-split a m)

pub cov-le : (a : ℕ) (e : Entry) → cov a e ≤ 1
unfolding cov
cov-le a e = ground arith
