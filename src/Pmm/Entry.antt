-- ===== src/Pmm/Entry.antt =====
-- The entries of a memory map (boot/limine/limine/common/mm/pmm.h), the messages of its panics,
-- and the removal of an entry from the array.
use nebula_os.Common.{
  ℕ, suc, ◌+◌, ◌^◌, ◌<◌, ◌≡◌, refl, Bool, false, List, [], ◌∷◌, ◌++◌, arith, All, length, ap,
}

-- `struct memmap_entry`, without its padding.
pub record Entry : Type 0 where
  pub base : ℕ
  pub length : ℕ
  pub type : ℕ

abbrev pub usable : ℕ
usable = 1

abbrev pub reserved : ℕ
reserved = 2

abbrev pub bootloader_reclaimable : ℕ
bootloader_reclaimable = 0x1000

abbrev pub kernel_and_modules : ℕ
kernel_and_modules = 0x1001

abbrev pub reserved_mapped : ℕ
reserved_mapped = 0x1003

abbrev pub efi_reclaimable : ℕ
efi_reclaimable = 0x2000

-- The messages with which the memory map code panics.
pub data Panic : Type 0 where
  allocations_disallowed : Panic
  alignment_overflow : Panic
  conventional_memory : Panic
  entry_inside_usable : Panic
  map_exhausted : Panic
  range_overflow : Panic
  allocation_overflow : Panic
  allocation_failure : Panic
  unaligned_pointer : Panic
  count_overflow : Panic
  size_overflow : Panic
  out_of_memory : Panic
  ranges_overflow : Panic

-- What differs between the BIOS and the UEFI build: `pmm_sanitiser_keep_first_page` and
-- `memmap_max_entries`.
pub record Config : Type 0 where
  pub keep_first_page : Bool
  pub max_entries : ℕ

-- The BIOS build.
abbrev pub bios : Config
bios = record { keep_first_page = false; max_entries = 512 }

-- The end of the entry is a 64-bit number.
abbrev pub Fits : Entry → Type 0
Fits e = e.base + e.length < 2 ^ 64

-- `if (i < count - 1) m[i] = m[count - 1]; count--;` on the entries from `i` on, given those
-- behind `i`.
get_last : Entry → List Entry → Entry
get_last x [] = x
get_last x (y ∷ m) = get_last y m

drop_last : Entry → List Entry → List Entry
drop_last x [] = []
drop_last x (y ∷ m) = x ∷ drop_last y m

unfoldable pub remove : List Entry → List Entry
unfolding get_last drop_last
remove [] = []
remove (x ∷ m) = get_last x m ∷ drop_last x m

length_last : (x : Entry) (m : List Entry) → length (drop_last x m) ≡ length m
unfolding drop_last
length_last x [] = refl
length_last x (y ∷ m) = ap suc (length_last y m)

pub length-remove : (m : List Entry) → length (remove m) ≡ length m
unfolding remove
length-remove [] = refl
length-remove (x ∷ m) = ap suc (length_last x m)

module _ {κ} (P : Entry → Type κ) where
  All-last : (x : Entry) (m : List Entry) → All P (x ∷ m) → All P (get_last x m ∷ drop_last x m)
  unfolding get_last drop_last
  All-last x [] h = h
  All-last x (y ∷ m) h = let rest = All-last y m h.1 in (rest.0, (h.0, rest.1))

  pub All-remove : (m : List Entry) → All P m → All P (remove m)
  unfolding remove
  All-remove [] h = h
  All-remove (x ∷ m) h = All-last x m h

-- A sum over the entries does not depend on their order.
unfoldable pub sum_of : (Entry → ℕ) → List Entry → ℕ
sum_of f [] = 0
sum_of f (e ∷ m) = f e + sum_of f m

module _ (f : Entry → ℕ) where
  pub sum_of-cons : (e : Entry) (m : List Entry) → sum_of f (e ∷ m) ≡ f e + sum_of f m
  unfolding sum_of
  sum_of-cons e m = refl

  pub sum_of-append : (m n : List Entry) → sum_of f (m ++ n) ≡ sum_of f m + sum_of f n
  unfolding sum_of
  sum_of-append [] n = omega arith
  sum_of-append (e ∷ m) n = omega (arith, sum_of-append m n)

  sum_of_last :
      (x : Entry) (m : List Entry) → sum_of f (get_last x m ∷ drop_last x m) ≡ sum_of f (x ∷ m)
  unfolding sum_of get_last drop_last
  sum_of_last x [] = refl
  sum_of_last x (y ∷ m) = omega (arith, sum_of_last y m)

  pub sum_of-remove : (m : List Entry) → sum_of f (remove m) ≡ sum_of f m
  unfolding remove
  sum_of-remove [] = refl
  sum_of-remove (x ∷ m) = sum_of_last x m
