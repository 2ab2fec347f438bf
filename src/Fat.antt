-- ===== src/Fat.antt =====
-- boot/limine/limine/common/fs/fat32.s2.c: FAT volumes. `read` is `volume_read` on the partition: so
-- many bytes from an offset on, or `none` if it fails. `Directory` has the names and the entries.
-- The allocations, which may panic, are not part of the model. The fields of a boot sector are of
-- 8, 16 and 32 bits, so that no offset here reaches 2 ^ 64 unless it is written with its wrap.
pub mod Chain
pub mod Reads
pub mod Names
pub mod Tests
use nebula_os.Common.{
  ℕ, zero, suc, ◌+◌, ◌-◌, ◌*◌, ◌/◌, ◌%◌, ◌^◌, Bool, true, false, not, Option, some, none, List, [],
  ◌∷◌, ◌&&◌, ◌||◌, ◌==◌, ltb, leb, if◌then◌else◌, u64, u32, checked_add, div_roundup, length,
  get_elem?, get_or, take, drop, bit_and, ◌>>>◌,
}
use nebula_os.Volume.Partitions.{field, equal_bytes}

-- `struct fat32_context`, without the label.
pub record Context : Type 0 where
  pub type : ℕ
  pub bytes_per_sector : ℕ
  pub sectors_per_cluster : ℕ
  pub reserved_sectors : ℕ
  pub number_of_fats : ℕ
  pub hidden_sectors : ℕ
  pub sectors_per_fat : ℕ
  pub fat_start_lba : ℕ
  pub data_start_lba : ℕ
  pub root_directory_cluster : ℕ
  pub root_entries : ℕ
  pub root_start : ℕ
  pub root_size : ℕ

-- The texts by which a boot sector is known.
unfoldable pub signature_valid : List ℕ → Bool
signature_valid bpb =
    equal_bytes (take 3 (drop 0x36 bpb)) (b'F' ∷ b'A' ∷ b'T' ∷ [])
    || equal_bytes (take 3 (drop 0x52 bpb)) (b'F' ∷ b'A' ∷ b'T' ∷ [])
    || equal_bytes (take 5 (drop 0x03 bpb)) (b'F' ∷ b'A' ∷ b'T' ∷ b'3' ∷ b'2' ∷ [])

unfoldable pub is_in : ℕ → List ℕ → Bool
is_in x [] = false
is_in x (y ∷ ys) = let rest = is_in x ys in if x == y then true else rest

abbrev pub sector_per_cluster_valid_values : List ℕ
sector_per_cluster_valid_values = 1 ∷ 2 ∷ 4 ∷ 8 ∷ 16 ∷ 32 ∷ 64 ∷ 128 ∷ []

abbrev pub bytes_per_sector_valid_values : List ℕ
bytes_per_sector_valid_values = 512 ∷ 1024 ∷ 2048 ∷ 4096 ∷ []

-- The checks of the fields that stand alone.
unfoldable pub geometry_valid : List ℕ → Bool
geometry_valid bpb =
    (signature_valid bpb && is_in (field 1 13 bpb) sector_per_cluster_valid_values)
    && is_in (field 2 11 bpb) bytes_per_sector_valid_values
    && not (field 1 16 bpb == 0 || ltb 4 (field 1 16 bpb))
    && not (field 2 14 bpb == 0)

-- The FAT type for a number of clusters.
unfoldable pub type_of : ℕ → ℕ
type_of clusters_count =
    if ltb clusters_count 4085 then 12 else if ltb clusters_count 65525 then 16 else 32

-- The sectors before the clusters, with the count of sectors of a FAT.
unfoldable pub metadata_sectors : List ℕ → ℕ
metadata_sectors bpb =
    let root_dir_sects = (field 2 17 bpb * 32 + (field 2 11 bpb - 1)) / field 2 11 bpb in
    let sectors_per_fat = if field 2 22 bpb == 0 then field 4 36 bpb else field 2 22 bpb in
    field 2 14 bpb + field 1 16 bpb * sectors_per_fat + root_dir_sects

unfoldable pub total_sectors : List ℕ → ℕ
total_sectors bpb = if field 2 19 bpb == 0 then field 4 32 bpb else field 2 19 bpb

-- The start of the clusters: behind the root directory, but for FAT32. `CHECKED_ADD` is on operands of 32 bits.
unfoldable pub data_start : ℕ → ℕ → ℕ → Option ℕ
data_start type root_start root_size =
    if type == 32
    then some root_start
    else if ltb (root_start + root_size) (2 ^ 32)
    then some (root_start + root_size)
    else none

-- The context for a boot sector of the type; the checks come in the source's order.
unfoldable pub context_of : List ℕ → ℕ → Option Context
context_of bpb type =
    let sectors_per_fat = if type == 32 then field 4 36 bpb else field 2 22 bpb in
    let root_start = field 2 14 bpb + field 1 16 bpb * sectors_per_fat in
    if sectors_per_fat == 0 || (not (type == 32) && field 2 17 bpb == 0)
    then none
    else if ltb (2 ^ 32 - 1) root_start
    then none
    else elim (div_roundup (field 2 17 bpb * 32) (field 2 11 bpb)) [
      | none ↦ none
      | some root_size ↦ elim (data_start type root_start root_size) [
        | none ↦ none
        | some data_start_lba ↦ some (record {
          type = type;
          bytes_per_sector = field 2 11 bpb;
          sectors_per_cluster = field 1 13 bpb;
          reserved_sectors = field 2 14 bpb;
          number_of_fats = field 1 16 bpb;
          hidden_sectors = field 4 28 bpb;
          sectors_per_fat = sectors_per_fat;
          fat_start_lba = field 2 14 bpb;
          data_start_lba = data_start_lba;
          root_directory_cluster = field 4 44 bpb;
          root_entries = field 2 17 bpb;
          root_start = root_start;
          root_size = root_size;
        })
      ]
    ]

-- The largest number of a cluster.
unfoldable pub cluster_limit : Context → ℕ
cluster_limit context =
    if context.type == 12
    then 0xfef
    else if context.type == 16
    then 0xffef
    else if context.type == 32
    then 0xfffffef
    else 0

-- Whether a cluster is one of data.
unfoldable pub is_cluster : Context → ℕ → Bool
is_cluster context cluster = not (ltb cluster 2 || ltb (cluster_limit context) cluster)

-- `max_clusters`, with FAT32_MAX_CHAIN_LENGTH.
unfoldable pub max_clusters : Context → ℕ
max_clusters context =
    if ltb 16777216 (cluster_limit context - 1) then 16777216 else cluster_limit context - 1

-- The address of the data of a cluster.
unfoldable pub cluster_base : Context → ℕ → ℕ
cluster_base context cluster =
    (context.data_start_lba + (cluster - 2) * context.sectors_per_cluster)
    * context.bytes_per_sector

abbrev pub block_size : Context → ℕ
block_size context = context.sectors_per_cluster * context.bytes_per_sector

-- The bytes that one round of `read_cluster_chain` reads.
unfoldable pub chunk_of : ℕ → ℕ → ℕ → ℕ
chunk_of size offset left = if ltb (size - offset) left then size - offset else left

-- The buffer with the bytes that were read from `progress` on.
unfoldable pub put_bytes : ℕ → ℕ → List ℕ → (ℕ → ℕ) → ℕ → ℕ
put_bytes progress chunk bytes buf i =
    if leb progress i && ltb i (progress + chunk) then get_or bytes (i - progress) 0 else buf i

module _ (read : ℕ → ℕ → Option (List ℕ)) where
  -- `fat32_init_context` up to the label.
  unfoldable pub init_context : Option Context
  init_context = elim (read 0 512) [
    | none ↦ none
    | some bpb ↦
        if not (geometry_valid bpb)
        then none
        else if leb (total_sectors bpb) (metadata_sectors bpb)
        then none
        else context_of bpb (type_of ((total_sectors bpb - metadata_sectors bpb) / field 1 13 bpb))
  ]

  -- Bytes of the FAT at the offset, which must be in it.
  unfoldable pub fat_bytes : Context → ℕ → ℕ → Option (List ℕ)
  fat_bytes context offset n =
      if ltb (context.sectors_per_fat * context.bytes_per_sector) (offset + n)
      then none
      else read (context.fat_start_lba * context.bytes_per_sector + offset) n

  -- `read_cluster_from_map`
  unfoldable pub read_cluster_from_map : Context → ℕ → Option ℕ
  read_cluster_from_map context cluster =
      if context.type == 12
      then elim (fat_bytes context (cluster + cluster / 2) 2) [
        | none ↦ none
        | some bytes ↦
            if cluster % 2 == 0
            then some (bit_and (field 2 0 bytes) 0xfff)
            else some (field 2 0 bytes >>> 4)
      ]
      else if context.type == 16
      then elim (fat_bytes context (cluster * 2) 2) [
        | none ↦ none
        | some bytes ↦ some (field 2 0 bytes)
      ]
      else elim (fat_bytes context (cluster * 4) 4) [
        | none ↦ none
        | some bytes ↦ some (bit_and (field 4 0 bytes) 0x0fffffff)
      ]

  -- The first loop of `cache_cluster_chain`, with so many clusters allowed: the chain's length.
  unfoldable pub chain_length_from : Context → ℕ → ℕ → ℕ → Option ℕ
  chain_length_from context zero chain_length cluster = none
  chain_length_from context (suc n) chain_length cluster =
      elim (read_cluster_from_map context cluster) [
        | none ↦ none
        | some next ↦
            let rest = chain_length_from context n (chain_length + 1) next in
            if is_cluster context next then rest else some chain_length
      ]

  -- The second loop: so many clusters of the chain.
  unfoldable pub chain_from : Context → ℕ → ℕ → Option (List ℕ)
  chain_from context zero cluster = some []
  chain_from context (suc n) cluster = elim (read_cluster_from_map context cluster) [
    | none ↦ none
    | some next ↦ elim (chain_from context n next) [
      | none ↦ none
      | some rest ↦ some (cluster ∷ rest)
    ]
  ]

  -- `cache_cluster_chain`
  unfoldable pub cache_cluster_chain : Context → ℕ → Option (List ℕ)
  cache_cluster_chain context initial_cluster =
      let chain : Option (List ℕ) =
        elim (chain_length_from context (max_clusters context) 1 initial_cluster) [
          | none ↦ none
          | some chain_length ↦ chain_from context chain_length initial_cluster
        ] in
      if is_cluster context initial_cluster then chain else none

  -- The part of a round of `read_cluster_chain` that reads: the bytes of the chunk.
  unfoldable pub read_chunk : Context → List ℕ → ℕ → ℕ → ℕ → Option (List ℕ)
  read_chunk context cluster_chain block offset chunk = elim (get_elem? cluster_chain block) [
    | none ↦ none
    | some cluster ↦
        if ltb cluster 2 then none else read (cluster_base context cluster + offset) chunk
  ]

  -- The chunk at the address of the file, of the `left` bytes that are wanted, and its size.
  unfoldable pub read_at : Context → List ℕ → ℕ → ℕ → Option (ℕ × List ℕ)
  read_at context cluster_chain at left =
      let size = block_size context in
      let chunk = chunk_of size (at % size) left in
      elim (read_chunk context cluster_chain (at / size) (at % size) chunk) [
        | none ↦ none
        | some bytes ↦ some (chunk, bytes)
      ]

  -- The loop of `read_cluster_chain`, on fuel; `none` is out of fuel.
  unfoldable pub read_chain_from :
      Context → List ℕ → ℕ → ℕ → ℕ → ℕ → (ℕ → ℕ) → Option (Bool × (ℕ → ℕ))
  read_chain_from context cluster_chain zero loc count progress buf =
      if ltb progress count then none else some (true, buf)
  read_chain_from context cluster_chain (suc fuel) loc count progress buf =
      let body : Option (Bool × (ℕ → ℕ)) =
        elim (read_at context cluster_chain (u64 (loc + progress)) (count - progress)) [
          | none ↦ some (false, buf)
          | some (chunk, bytes) ↦
              read_chain_from context cluster_chain fuel loc count (progress + chunk)
                (put_bytes progress chunk bytes buf)
        ] in
      if ltb progress count then body else some (true, buf)

  -- `read_cluster_chain`
  unfoldable pub read_cluster_chain : Context → List ℕ → (ℕ → ℕ) → ℕ → ℕ → Option (Bool × (ℕ → ℕ))
  read_cluster_chain context cluster_chain buf loc count =
      read_chain_from context cluster_chain count loc count 0 buf
