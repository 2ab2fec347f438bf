-- ===== src/Uri/Drive.antt =====
-- `parse_bios_partition` of boot/limine/limine/common/lib/uri.c against the numbers of its text.
use nebula_os.Common.{
  ◌⊎◌, timeout, subst, ℕ, ◌≤◌, ◌<◌, ◌≡◌, ◌≢◌, refl, sym, Option, some, none, List, [], ◌∷◌, ◌++◌,
  All, arith, ◌||◌, ltb, Bool-cases, ==-cases, inl, inr, Outcome, ok, panic,
}
use nebula_os.Misc.{strtoui}
use nebula_os.Misc.Strtoui.{value, digits_of, strtoui-value}
use nebula_os.Uri.{
  UriPanic, no_drive, drive_range, partition_range, split_colon, parse_bios_partition,
}

-- The number that a text begins with.
abbrev pub number : List ℕ → ℕ
number s = value 10 0 (digits_of 10 s)

split_colon-none : (s : List ℕ) → All (λ c. c ≢ b':') s → split_colon s ≡ none
unfolding split_colon
split_colon-none [] h = refl
split_colon-none (c ∷ s) (hc, hs) =
    let e = split_colon-none s hs in
    elim (==-cases c b':') [ inl (ec, b) ↦ absurd (hc ec) | inr (ne, b) ↦ ground (arith, b, e) ]

split_colon_lem :
    (drive s : List ℕ)
    → All (λ c. c ≢ b':') drive
    → split_colon (drive ++ b':' ∷ s) ≡ some (drive, s)
unfolding split_colon
split_colon_lem [] s h = refl
split_colon_lem (c ∷ drive) s (hc, hs) =
    let e = split_colon_lem drive s hs in
    elim (==-cases c b':') [ inl (ec, b) ↦ absurd (hc ec) | inr (ne, b) ↦ ground (arith, b, e) ]

-- What each outcome means for the texts before and behind the colon.
unfoldable pub Parsed : List ℕ → List ℕ → Outcome UriPanic (Option (ℕ × ℕ)) → Type 0
Parsed drive s (ok none) = ⊥
Parsed drive s (ok (some (d, p))) =
    (d ≡ number drive) × (p ≡ number s) × (1 ≤ d) × (d ≤ 256) × (p ≤ 256)
Parsed drive s (panic no_drive) = drive ≡ []
Parsed drive s (panic drive_range) = (drive ≢ []) × ((number drive < 1) ⊎ (256 < number drive))
Parsed drive s (panic partition_range) =
    (1 ≤ number drive) × (number drive ≤ 256) × (256 < number s)
Parsed drive s (panic e) = ⊥
Parsed drive s timeout = ⊥

-- Without a colon there is no result.
pub parse_bios_partition-none :
    (loc : List ℕ) → All (λ c. c ≢ b':') loc → parse_bios_partition loc ≡ ok none
unfolding parse_bios_partition
parse_bios_partition-none loc h = rw (parse_bios_partition, split_colon-none loc h) refl

-- A text with a colon, and `drive` before the first one, gives a panic that no drive is named only if
-- `drive` is empty; a panic on the drive only if its number is outside of 1 to 256; a panic on the
-- partition only if the drive is within its range and the number of the partition is above 256; and
-- otherwise the two numbers, which are in their ranges. It gives no other outcome.
pub parse_bios_partition-Parsed :
    (drive s : List ℕ)
    → All (λ c. c ≢ b':') drive
    → Parsed drive s (parse_bios_partition (drive ++ b':' ∷ s))
unfolding parse_bios_partition Parsed
parse_bios_partition-Parsed [] s h =
    let split : split_colon (b':' ∷ s) ≡ some ([], s) = split_colon_lem [] s h in
    let e : parse_bios_partition (b':' ∷ s) ≡ panic no_drive = ground (arith, split) in
    subst (Parsed [] s) (sym e) refl
parse_bios_partition-Parsed (c ∷ drive) s h =
    let e = split_colon_lem (c ∷ drive) s h in
    let d = (strtoui-value 10 (c ∷ drive) (omega arith)).0 in
    let p = (strtoui-value 10 s (omega arith)).0 in
    let x = (strtoui 10 (c ∷ drive)).0 in
    let y = (strtoui 10 s).0 in
    elim (Bool-cases (ltb x 1 || ltb 256 x)) [
      | inl b ↦
          let m : parse_bios_partition ((c ∷ drive) ++ b':' ∷ s) ≡ panic drive_range =
            ground (arith, e, b) in
          subst (Parsed (c ∷ drive) s) (sym m) ((λ f. absurd (cc f)), ground (arith, b, d))
      | inr b ↦ elim (Bool-cases (ltb 256 y)) [
        | inl b' ↦
            let m : parse_bios_partition ((c ∷ drive) ++ b':' ∷ s) ≡ panic partition_range =
              ground (arith, e, b, b') in
            subst (Parsed (c ∷ drive) s) (sym m)
              (ground (arith, b, d), ground (arith, b, d), ground (arith, b', p))
        | inr b' ↦
            let m : parse_bios_partition ((c ∷ drive) ++ b':' ∷ s) ≡ ok (some (x, y)) =
              ground (arith, e, b, b') in
            subst (Parsed (c ∷ drive) s) (sym m) (
              ground (arith, b, d),
              ground (arith, b', p),
              ground (arith, b),
              ground (arith, b),
              ground (arith, b'),
            )
      ]
    ]
