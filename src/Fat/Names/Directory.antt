-- ===== src/Fat/Names/Directory.antt =====
-- The search in a directory and the opening of a path, boot/limine/limine/common/fs/fat32.s2.c. An
-- entry is the list of its 32 bytes.
use nebula_os.Common.{
  ℕ, zero, suc, ◌+◌, ◌-◌, ◌*◌, ◌/◌, ◌%◌, ◌^◌, Bool, true, false, not, Option, some, none, List, [],
  ◌∷◌, ◌++◌, ◌&&◌, ◌||◌, ◌==◌, ltb, leb, if◌then◌else◌, get_or, set, length, take, drop, bit_and,
  bit_or, ◌<<<◌, checked_mul, div_roundup,
}
use nebula_os.Libc.{same, strcmp, strcasecmp}
use nebula_os.Volume.Partitions.{field, equal_bytes}
use nebula_os.Fat.{Context, block_size, cache_cluster_chain, read_cluster_chain}
use nebula_os.Fat.Names.{filename_to_8_3, lfncpy}

-- `attribute` of `struct fat32_directory_entry`
unfoldable pub attribute : List ℕ → ℕ
attribute entry = get_or entry 11 0

-- The cluster of an entry.
unfoldable pub entry_cluster : Context → List ℕ → ℕ
entry_cluster context entry =
    if context.type == 32
    then bit_or (field 2 26 entry) (field 2 20 entry <<< 16)
    else field 2 26 entry

-- The long name that is being read: `current_lfn` and `lfn_expected`.
pub record LongName : Type 0 where
  pub current : List ℕ
  pub expected : ℕ

-- `n` equal bytes.
unfoldable pub repeated : ℕ → ℕ → List ℕ
repeated zero c = []
repeated (suc n) c = c ∷ repeated n c

-- The removal of trailing spaces, from the index on.
unfoldable pub trim_from : ℕ → List ℕ → List ℕ
trim_from zero current = set current 0 0
trim_from (suc j) current =
    let rest = trim_from j current in
    if get_or current j 0 == b' ' then rest else set current (suc j) 0

-- The text before the NUL.
unfoldable pub c_string : List ℕ → List ℕ
c_string [] = []
c_string (c ∷ s) = let rest = c_string s in if c == 0 then [] else c ∷ rest

-- The part of the name in an entry, at its place.
unfoldable pub take_part : ℕ → List ℕ → List ℕ → List ℕ
take_part lfn_index entry current =
    lfncpy 2 0
      (lfncpy 6 0 (lfncpy 5 0 current lfn_index (drop 1 entry)) (lfn_index + 5) (drop 14 entry))
      (lfn_index + 11) (drop 28 entry)

-- What an entry of a long name does: the state, and whether the name is complete.
unfoldable pub take_long : List ℕ → LongName → Bool × LongName
take_long entry st =
    let sequence = get_or entry 0 0 in
    let seq_num = bit_and sequence 0x1F in
    let begun : LongName =
      if not (bit_and sequence 0x40 == 0)
      then record { current = repeated 261 b' '; expected = seq_num }
      else st in
    let taken = take_part ((seq_num - 1) * 13) entry begun.current in
    if sequence == 0xE5
    then (false, record st { expected = 0 })
    else if (seq_num == 0 || not (seq_num == begun.expected)) || leb 260 ((seq_num - 1) * 13)
    then (false, record begun { expected = 0 })
    else if seq_num == 1
    then (true, record { current = trim_from 260 taken; expected = begun.expected - 1 })
    else (false, record { current = taken; expected = begun.expected - 1 })

-- `strcmpfn(current_lfn, name) == 0`
unfoldable pub equal_names : Bool → List ℕ → List ℕ → Bool
equal_names case_insensitive a b = elim (if case_insensitive then strcasecmp a b else strcmp a b) [
  | same ↦ true
  | _ ↦ false
]

-- The entry behind a long name, if it is one of a file.
unfoldable pub entry_behind : List (List ℕ) → Option (List ℕ)
entry_behind [] = none
entry_behind (sfn ∷ entries) =
    if (get_or sfn 0 0 == 0x00 || get_or sfn 0 0 == 0xE5) || attribute sfn == 0x0F
    then none
    else some sfn

-- Whether the entry has the name as its short one.
unfoldable pub has_short : List ℕ → List ℕ → Bool
has_short name entry =
    if not (bit_and (attribute entry) 8 == 0)
    then false
    else elim (filename_to_8_3 name) [ none ↦ false | some fn ↦ equal_bytes (take 11 entry) fn ]

-- The loop of `fat32_open_in` for a name.
unfoldable pub find_entry : Bool → List ℕ → LongName → List (List ℕ) → Option (List ℕ)
find_entry ci name st [] = none
find_entry ci name st (entry ∷ entries) =
    let long = take_long entry st in
    let after_long = find_entry ci name long.1 entries in
    let after_short = find_entry ci name st entries in
    if get_or entry 0 0 == 0x00
    then none
    else if attribute entry == 0x0F
    then (if long.0 && equal_names ci (c_string long.1.current) name
        then entry_behind entries
        else after_long)
    else if has_short name entry
    then some entry
    else after_short

-- The label without its trailing spaces.
unfoldable pub trim_label : ℕ → List ℕ → List ℕ
trim_label zero label = []
trim_label (suc j) label =
    let rest = trim_label j label in if get_or label j 0 == b' ' then rest else take (suc j) label

-- The loop of `fat32_open_in` without a name: the label of the volume.
unfoldable pub find_label : List (List ℕ) → Option (List ℕ)
find_label [] = none
find_label (entry ∷ entries) =
    let next = find_label entries in
    if get_or entry 0 0 == 0x00
    then none
    else if not (attribute entry == 8)
    then next
    else some (trim_label 11 (take 11 entry))

-- `n` bytes of the buffer, and so many entries of it.
unfoldable pub buffer_bytes : (ℕ → ℕ) → ℕ → ℕ → List ℕ
buffer_bytes buf at zero = []
buffer_bytes buf at (suc n) = buf at ∷ buffer_bytes buf (at + 1) n

unfoldable pub buffer_entries : (ℕ → ℕ) → ℕ → ℕ → List (List ℕ)
buffer_entries buf i zero = []
buffer_entries buf i (suc n) = buffer_bytes buf (i * 32) 32 ∷ buffer_entries buf (i + 1) n

module _ (read : ℕ → ℕ → Option (List ℕ)) where
  -- The entries of the directory, or of the root of FAT12 and FAT16.
  unfoldable pub directory_entries : Context → Option (List ℕ) → Option (List (List ℕ))
  directory_entries context (some directory) =
      elim (cache_cluster_chain read context (entry_cluster context directory)) [
        | none ↦ none
        | some chain ↦ elim (checked_mul (length chain) (block_size context)) [
          | none ↦ none
          | some alloc_size ↦
              if ltb (256 * 1024 * 1024) alloc_size
              then none
              else elim (read_cluster_chain read context chain (λ i. 0) 0 alloc_size) [
                | none ↦ none
                | some (done, buf) ↦
                    if done then some (buffer_entries buf 0 (alloc_size / 32)) else none
              ]
        ]
      ]
  directory_entries context none =
      elim (div_roundup (context.root_entries * 32) (block_size context)) [
        | none ↦ none
        | some count ↦ elim (checked_mul count (block_size context)) [
          | none ↦ none
          | some alloc_size ↦
              if ltb (256 * 1024 * 1024) alloc_size
              then none
              else elim (read (context.root_start * context.bytes_per_sector)
                  (context.root_entries * 32)) [
                    | none ↦ none
                    | some bytes ↦ some (buffer_entries (λ i. get_or bytes i 0) 0 (alloc_size / 32))
                  ]
        ]
      ]

  -- `fat32_open_in` for a name.
  unfoldable pub open_in : Bool → Context → Option (List ℕ) → List ℕ → Option (List ℕ)
  open_in ci context directory name = elim (directory_entries context directory) [
    | none ↦ none
    | some entries ↦ find_entry ci name (record { current = repeated 261 0; expected = 0 }) entries
  ]

  -- The directory in which a path begins.
  unfoldable pub root_of : Context → Option (List ℕ)
  root_of context =
      if context.type == 32
      then some (
          repeated 20 0
          ++ (context.root_directory_cluster / 2 ^ 16 % 256)
            ∷ (context.root_directory_cluster / 2 ^ 24)
            ∷ 0
            ∷ 0
            ∷ 0
            ∷ 0
            ∷ (context.root_directory_cluster % 256)
            ∷ (context.root_directory_cluster / 2 ^ 8 % 256)
            ∷ 0
            ∷ 0
            ∷ 0
            ∷ 0
            ∷ [])
      else none

  -- The label, which `fat32_init_context` reads last.
  unfoldable pub get_label : Context → Option (List ℕ)
  get_label context = elim (directory_entries context (root_of context)) [
    | none ↦ none
    | some entries ↦ find_label entries
  ]

  -- The file of an entry: its size and its chain.
  unfoldable pub file_of : Context → List ℕ → Option (ℕ × List ℕ)
  file_of context entry = elim (cache_cluster_chain read context (entry_cluster context entry)) [
    | none ↦ if field 4 28 entry == 0 then some (0, []) else none
    | some chain ↦ some (field 4 28 entry, chain)
  ]

  -- The loop of `fat32_open`: `part` is what has been read of the name up to the next slash.
  unfoldable pub open_path :
      Bool → Context → Option (List ℕ) → List ℕ → List ℕ → Option (ℕ × List ℕ)
  open_path ci context directory part [] = elim (open_in ci context directory part) [
    | none ↦ none
    | some file ↦ file_of context file
  ]
  open_path ci context directory part (c ∷ path) =
      let below : Option (ℕ × List ℕ) = elim (open_in ci context directory part) [
        | none ↦ none
        | some file ↦
            if bit_and (attribute file) 0x10 == 0
            then none
            else open_path ci context (some file) [] path
      ] in
      let longer = open_path ci context directory (part ++ c ∷ []) path in
      if c == b'/' then below else if leb 259 (length part) then none else longer

  unfoldable pub skip_slashes : List ℕ → List ℕ
  skip_slashes [] = []
  skip_slashes (c ∷ path) = let rest = skip_slashes path in if c == b'/' then rest else c ∷ path

  -- `fat32_open` with the context of the volume.
  unfoldable pub fat32_open : Bool → Context → List ℕ → Option (ℕ × List ℕ)
  fat32_open ci context path = open_path ci context (root_of context) [] (skip_slashes path)
