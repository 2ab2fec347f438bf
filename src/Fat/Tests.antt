-- ===== src/Fat/Tests.antt =====
-- A FAT16 volume of boot/limine/limine/common/fs/fat32.s2.c on which the theorems are instances.
use nebula_os.Common.{
  ℕ, zero, suc, ◌+◌, ◌≤◌, ◌<◌, ◌≡◌, ◌↔◌, ◌⊎◌, refl, ap, sym, ◌∙◌, true, false, Bool, Option, some,
  none, List, [], ◌∷◌, ◌++◌, ◌==◌, if◌then◌else◌, arith, length, map, get_or, All, ◌≢◌,
}
use nebula_os.Libc.{toupper}
use nebula_os.Volume.Partitions.{field, equal_bytes}
use nebula_os.Fat.{
  Context, is_cluster, cluster_limit, max_clusters, cache_cluster_chain, chain_length_from,
  chain_from, read_cluster_from_map, fat_bytes, read_cluster_chain, block_size,
}
use nebula_os.Fat.Chain.{IsChain, cache_cluster_chain_lem}
use nebula_os.Fat.Reads.{IsHonest, IsRead, read_cluster_chain-IsRead}
use nebula_os.Fat.Names.{filename_to_8_3, to_8_3_from}
use nebula_os.Fat.Names.Short.{padded, filename_to_8_3_lem}
use nebula_os.Fat.Names.Directory.{LongName, find_entry, attribute, has_short, take_long}
use nebula_os.Libc.{strcmp, by_bytes}
use nebula_os.Fat.Names.{lfncpy}
use nebula_os.Fat.Names.Directory.{
  take_part, repeated, trim_from, c_string, equal_names, entry_behind,
}
use nebula_os.Fat.Names.Found.{IsBefore, HasShort, HasLong, find_entry-found}

-- One sector for a FAT at sector 1 and clusters of one sector from sector 2 on.
abbrev context : Context
context = record {
  type = 16;
  bytes_per_sector = 512;
  sectors_per_cluster = 1;
  reserved_sectors = 1;
  number_of_fats = 1;
  hidden_sectors = 0;
  sectors_per_fat = 1;
  fat_start_lba = 1;
  data_start_lba = 2;
  root_directory_cluster = 0;
  root_entries = 16;
  root_start = 2;
  root_size = 1;
}

-- The FAT leads from cluster 2 to 5 and there ends; all other bytes are 0.
abbrev byte : ℕ → ℕ
byte a = if a == 516 then 5 else if a == 522 then 0xff else if a == 523 then 0xff else 0

abbrev bytes_from : ℕ → ℕ → List ℕ
bytes_from a zero = []
bytes_from a (suc n) = byte a ∷ bytes_from (a + 1) n

abbrev read : ℕ → ℕ → Option (List ℕ)
read loc n = some (bytes_from loc n)

two_clusters : cache_cluster_chain read context 2 ≡ some (2 ∷ 5 ∷ [])
unfolding cache_cluster_chain chain_length_from chain_from read_cluster_from_map fat_bytes field
    is_cluster cluster_limit max_clusters
two_clusters = refl

cache_cluster_chain_lem_example : (cache_cluster_chain read context 2 ≡ some (2 ∷ 5 ∷ [])) ↔ (
    (is_cluster context 2 ≡ true)
    × IsChain read context 2 (2 ∷ 5 ∷ [])
    × (length {A = ℕ} (2 ∷ 5 ∷ []) ≤ max_clusters context))
cache_cluster_chain_lem_example = cache_cluster_chain_lem read context 2 (2 ∷ 5 ∷ [])

bytes_from-byte : (loc n i : ℕ) → i < n → get_or (bytes_from loc n) i 0 ≡ byte (loc + i)
bytes_from-byte loc zero i lt = absurd (omega (arith, lt))
bytes_from-byte loc (suc n) zero lt = ap byte {x = loc} {y = loc + 0} (omega arith)
bytes_from-byte loc (suc n) (suc i) lt =
    bytes_from-byte (loc + 1) n i (omega (arith, lt))
    ∙ ap byte {x = loc + 1 + i} {y = loc + suc i} (omega arith)

read-IsHonest : IsHonest read byte
read-IsHonest loc n bytes e i lt =
    ap (λ (o : Option (List ℕ)). elim o as (λ x. ℕ) [ none ↦ 0 | some l ↦ get_or l i 0 ]) (sym e)
    ∙ bytes_from-byte loc n i lt

some_block : 0 < block_size context
some_block = omega arith

read_cluster_chain-IsRead_example :
    (out : Bool × (ℕ → ℕ)) × (read_cluster_chain read context (2 ∷ 5 ∷ []) (λ i. 7) 500 20
      ≡ some out)
    × IsRead read byte context read-IsHonest some_block (2 ∷ 5 ∷ []) 500 20 0 (λ i. 7) out
read_cluster_chain-IsRead_example =
    read_cluster_chain-IsRead read byte context read-IsHonest some_block (2 ∷ 5 ∷ []) (λ i. 7) 500
      20 (omega arith)

abbrev boot : List ℕ
boot = b'b' ∷ b'o' ∷ b'o' ∷ b't' ∷ []

abbrev bin : List ℕ
bin = b'b' ∷ b'i' ∷ b'n' ∷ []

boot-no_dot : All (λ c. c ≢ b'.') boot
boot-no_dot = ground arith

bin-no_dot : All (λ c. c ≢ b'.') bin
bin-no_dot = ground arith

filename_to_8_3_lem_example :
    (filename_to_8_3 boot ≡ some (padded 8 (map toupper boot) ++ padded 3 []))
    × (filename_to_8_3 (boot ++ b'.' ∷ bin)
        ≡ some (padded 8 (map toupper boot) ++ padded 3 (map toupper bin)))
filename_to_8_3_lem_example =
    filename_to_8_3_lem boot bin boot-no_dot bin-no_dot (omega arith) (omega arith)

-- The entry of the file BOOT.BIN.
abbrev boot_entry : List ℕ
boot_entry = b'B' ∷ b'O' ∷ b'O' ∷ b'T' ∷ b' ' ∷ b' ' ∷ b' ' ∷ b' ' ∷ b'B' ∷ b'I' ∷ b'N' ∷ 0x20 ∷ []

abbrev no_long : LongName
no_long = record { current = []; expected = 0 }

finds_boot : find_entry false (boot ++ b'.' ∷ bin) no_long (boot_entry ∷ []) ≡ some boot_entry
unfolding find_entry attribute has_short take_long filename_to_8_3 to_8_3_from equal_bytes toupper
finds_boot = refl

-- The only part of the long name `aB`, which ends with a NUL.
abbrev long_part : List ℕ
long_part =
    0x41 ∷ b'a' ∷ 0 ∷ b'B' ∷ 0 ∷ 0 ∷ 0 ∷ 255 ∷ 255 ∷ 255 ∷ 255 ∷ 0x0F ∷ 0 ∷ 0 ∷ 255 ∷ 255 ∷ 255
    ∷ 255 ∷ 255 ∷ 255 ∷ 255 ∷ 255 ∷ 255 ∷ 255 ∷ 255 ∷ 255 ∷ 0 ∷ 0 ∷ 255 ∷ 255 ∷ 255 ∷ 255 ∷ []

abbrev long_text : List ℕ
long_text = b'a' ∷ b'B' ∷ []

finds_long : find_entry false long_text no_long (long_part ∷ boot_entry ∷ []) ≡ some boot_entry
unfolding find_entry attribute take_long take_part lfncpy repeated trim_from c_string equal_names
    entry_behind strcmp by_bytes
finds_long = refl

find_entry-found_example :
    IsBefore boot_entry (long_part ∷ boot_entry ∷ [])
    × (HasShort long_text boot_entry
        ⊎ HasLong false long_text [] (long_part ∷ boot_entry ∷ []) boot_entry)
find_entry-found_example =
    find_entry-found false long_text no_long (long_part ∷ boot_entry ∷ []) boot_entry refl
      finds_long
