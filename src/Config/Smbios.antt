-- ===== src/Config/Smbios.antt =====
-- The structures of the SMBIOS that `init_config_smbios` of boot/limine/limine/common/lib/config.c
-- walks. A structure is the list of the bytes from its header on.
use nebula_os.Common.{
  ℕ, zero, suc, ◌+◌, ◌-◌, ◌≤◌, ◌<◌, ◌≡◌, ◌≢◌, ◌⊎◌, refl, ap, sym, ◌∙◌, not, ◌&&◌, ◌||◌, Option,
  some, none, List, [], ◌∷◌, ◌==◌, if◌then◌else◌, ltb, leb, length, get_or, take, drop, arith, inl,
  inr, subst, Bool-cases, Option-cases, ==-cases,
}
use nebula_os.Volume.Partitions.{equal_bytes}

-- The loop for the end of the strings, with `n` bytes of the area to go: the index of the second NUL.
unfoldable pub strings_end : List ℕ → ℕ → ℕ → Option ℕ
strings_end string_data zero i = none
strings_end string_data (suc n) i =
    let next = strings_end string_data n (i + 1) in
    if not (get_or string_data (i - 1) 0 == 0) || not (get_or string_data i 0 == 0)
    then next
    else some i

-- `smbios_struct_size`; 0 if the structure is not valid.
unfoldable pub smbios_struct_size : List ℕ → ℕ → ℕ
smbios_struct_size hdr remaining =
    let len = get_or hdr 1 0 in
    let size : ℕ = elim (strings_end (drop len hdr) (remaining - len - 1) 1) [
      | none ↦ 0
      | some i ↦ len + i + 1
    ] in
    if ltb remaining 4 || (ltb len 4 || ltb remaining len) then 0 else size

abbrev pub config_prefix : List ℕ
config_prefix =
    b'l' ∷ b'i' ∷ b'm' ∷ b'i' ∷ b'n' ∷ b'e' ∷ b':' ∷ b'c' ∷ b'o' ∷ b'n' ∷ b'f' ∷ b'i' ∷ b'g' ∷ b':'
    ∷ []

-- `strnlen`
unfoldable pub text_before : ℕ → List ℕ → List ℕ
text_before zero s = []
text_before (suc n) [] = []
text_before (suc n) (c ∷ s) = let rest = text_before n s in if c == 0 then [] else c ∷ rest

-- What the body of the loop finds in a structure: a configuration, an empty one, for which the code
-- says `continue`, or none.
pub data Content : Type 0 where
  text : List ℕ → Content
  empty : Content
  other : Content

unfoldable pub content_of : List ℕ → ℕ → Content
content_of hdr struct_size =
    let len = get_or hdr 1 0 in
    let total = text_before (struct_size - len) (drop len hdr) in
    if (get_or hdr 0 0 == 11 && leb 4 len)
      && (ltb 14 (struct_size - len) && equal_bytes (take 14 (drop len hdr)) config_prefix)
    then (if leb (length total) 14 then empty else text (drop 14 total))
    else other

-- The result of the search; `unfinished` is out of fuel.
pub data SmbiosResult : Type 0 where
  config : List ℕ → SmbiosResult
  no_config : SmbiosResult
  unfinished : SmbiosResult

-- The loop of `init_config_smbios`, on fuel, at the structure `hdr` with the number `struct_num`;
-- `processed` is `structure_bytes_processed`.
unfoldable pub find_config : ℕ → ℕ → ℕ → List ℕ → ℕ → ℕ → SmbiosResult
find_config zero struct_count struct_num hdr table_length processed = unfinished
find_config (suc fuel) struct_count struct_num hdr table_length processed =
    let remaining = table_length - processed in
    let size = smbios_struct_size hdr remaining in
    let again = find_config fuel struct_count (struct_num + 1) hdr table_length processed in
    let next =
      find_config fuel struct_count (struct_num + 1) (drop size hdr) table_length
        (processed + size) in
    let later : SmbiosResult = elim (content_of hdr size) [
      | text t ↦ config t
      | empty ↦ again
      | other ↦ if leb table_length (processed + size) then no_config else next
    ] in
    if not (struct_count == 0) && leb struct_count struct_num
    then no_config
    else if (ltb remaining 4 || get_or hdr 0 0 == 127) || size == 0
    then no_config
    else later

strings_end_lem :
    (s : List ℕ) (n i j : ℕ)
    → strings_end s n i ≡ some j
    → (i ≤ j) × (j < i + n) × (get_or s (j - 1) 0 ≡ 0) × (get_or s j 0 ≡ 0)
unfolding strings_end
strings_end_lem s zero i j h = absurd (cc h)
strings_end_lem s (suc n) i j h =
    elim (Bool-cases (not (get_or s (i - 1) 0 == 0) || not (get_or s i 0 == 0))) [
      | inl b ↦
          let later = strings_end_lem s n (i + 1) j (ground (arith, h, b)) in
          (omega (arith, later.0), omega (arith, later.1), later.2, later.3)
      | inr b ↦
          let same_index : i ≡ j = ground (arith, h, b) in
          (
            omega (arith, same_index),
            omega (arith, same_index),
            subst (λ k. get_or s (k - 1) 0 ≡ 0) same_index (ground (arith, b)),
            subst (λ k. get_or s k 0 ≡ 0) same_index (ground (arith, b)),
          )
    ]

-- The size of a structure that is found valid is in what remains of the table, holds the header and
-- at least two bytes behind its formatted part, and these end with two NULs.
pub smbios_struct_size-bounds :
    (hdr : List ℕ) (remaining : ℕ)
    → smbios_struct_size hdr remaining ≢ 0
    → (smbios_struct_size hdr remaining ≤ remaining)
      × (4 ≤ get_or hdr 1 0)
      × (get_or hdr 1 0 + 2 ≤ smbios_struct_size hdr remaining)
      × (get_or
            (drop (get_or hdr 1 0) hdr)
            (smbios_struct_size hdr remaining - get_or hdr 1 0 - 2)
            0
          ≡ 0)
      × (get_or
            (drop (get_or hdr 1 0) hdr)
            (smbios_struct_size hdr remaining - get_or hdr 1 0 - 1)
            0
          ≡ 0)
unfolding smbios_struct_size
smbios_struct_size-bounds hdr remaining h =
    let len = get_or hdr 1 0 in
    elim (Option-cases (strings_end (drop len hdr) (remaining - len - 1) 1)) [
      | inl e ↦ absurd (ground (arith, h, e))
      | inr (i, e) ↦
          let at = strings_end_lem (drop len hdr) (remaining - len - 1) 1 i e in
          let size = smbios_struct_size hdr remaining in
          let is : size ≡ len + i + 1 = ground (arith, h, e) in
          let header : 4 ≤ len = ground (arith, h, e) in
          let room : len ≤ remaining = ground (arith, h, e) in
          (
            omega (arith, is, at.1, room),
            header,
            omega (arith, is, at.0),
            ap (λ (k : ℕ). get_or (drop len hdr) k 0) {x = size - len - 2} {y = i - 1}
                  (omega (arith, is))
                ∙ at.2,
            ap (λ (k : ℕ). get_or (drop len hdr) k 0) {x = size - len - 1} {y = i}
                  (omega (arith, is))
                ∙ at.3,
          )
    ]

pub content_of-type : (hdr : List ℕ) (size : ℕ) → content_of hdr size ≡ empty → get_or hdr 0 0 ≡ 11
unfolding content_of
content_of-type hdr size h = ground (arith, h)

-- At a valid structure of the type 11 whose first string is the prefix alone, in a table of the 64-bit
-- entry point, which does not tell the number of structures, the loop does not end, whatever its
-- fuel: the `continue` leaves the structure where it is.
pub find_config-stuck :
    (hdr : List ℕ) (table_length processed : ℕ)
    → 4 ≤ table_length - processed
    → smbios_struct_size hdr (table_length - processed) ≢ 0
    → content_of hdr (smbios_struct_size hdr (table_length - processed)) ≡ empty
    → (fuel struct_num : ℕ) → find_config fuel 0 struct_num hdr table_length processed ≡ unfinished
unfolding find_config
find_config-stuck hdr table_length processed room valid h zero struct_num = refl
find_config-stuck hdr table_length processed room valid h (suc fuel) struct_num =
    let type = content_of-type hdr (smbios_struct_size hdr (table_length - processed)) h in
    let again = find_config-stuck hdr table_length processed room valid h fuel (struct_num + 1) in
    ground (arith, room, valid, h, type, again)

drop-[] : (n : ℕ) → drop {A = ℕ} n [] ≡ []
drop-[] zero = refl
drop-[] (suc n) = refl

drop-drop : (a b : ℕ) (s : List ℕ) → drop b (drop a s) ≡ drop (a + b) s
drop-drop zero b s = ap (λ (n : ℕ). drop n s) {x = b} {y = 0 + b} (omega arith)
drop-drop (suc a) b [] = drop-[] b ∙ sym (drop-[] (suc a + b))
drop-drop (suc a) b (c ∷ s) =
    drop-drop a b s ∙ ap (λ (n : ℕ). drop n (c ∷ s)) {x = suc (a + b)} {y = suc a + b} (omega arith)

Content-cases : (c : Content) → (c ≡ empty) ⊎ ((c ≡ other) ⊎ ((t : List ℕ) × (c ≡ text t)))
Content-cases (text t) = inr (inr (t, refl))
Content-cases empty = inl refl
Content-cases other = inr (inl refl)

-- No structure of the table, wherever it begins, is a configuration without text.
abbrev pub HasNoEmpty : List ℕ → Type 0
HasNoEmpty hdr = (k size : ℕ) → content_of (drop k hdr) size ≢ empty

HasNoEmpty-drop : (n : ℕ) (hdr : List ℕ) → HasNoEmpty hdr → HasNoEmpty (drop n hdr)
HasNoEmpty-drop n hdr h k size e =
    h (n + k) size (ap (λ (s : List ℕ). content_of s size) (sym (drop-drop n k hdr)) ∙ e)

-- In a table without such a structure the loop ends within as many rounds as bytes are left, and one.
pub find_config-ends :
    (fuel struct_count struct_num : ℕ) (hdr : List ℕ) (table_length processed : ℕ)
    → HasNoEmpty hdr
    → processed ≤ table_length
    → table_length < processed + fuel
    → find_config fuel struct_count struct_num hdr table_length processed ≢ unfinished
unfolding find_config
find_config-ends zero struct_count struct_num hdr table_length processed h le enough e =
    omega (arith, le, enough)
find_config-ends (suc fuel) struct_count struct_num hdr table_length processed h le enough e =
    let size = smbios_struct_size hdr (table_length - processed) in
    let bounds = smbios_struct_size-bounds hdr (table_length - processed) in
    let next =
      find_config fuel struct_count (struct_num + 1) (drop size hdr) table_length
        (processed + size) in
    let later : 2 ≤ size → processed + size < table_length → next ≢ unfinished = λ valid lt.
      find_config-ends fuel struct_count (struct_num + 1) (drop size hdr) table_length
        (processed + size) (HasNoEmpty-drop size hdr h) (omega (arith, lt))
        (omega (arith, enough, valid)) in
    elim (Content-cases (content_of hdr size)) [
      | inl c ↦ h 0 size c
      | inr (inr (t, c)) ↦ absurd (ground (arith, e, c))
      | inr (inl c) ↦ elim (==-cases size 0) [
        | inl (z, b) ↦ absurd (ground (arith, e, c, b))
        | inr (valid, b) ↦
            later (omega (arith, (bounds valid).2)) (ground (arith, e, c, b))
              (ground (arith, e, c, b))
      ]
    ]
