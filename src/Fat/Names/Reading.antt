-- ===== src/Fat/Names/Reading.antt =====
-- The state in which the search of `fat32_open_in`, boot/limine/limine/common/fs/fat32.s2.c, reads a
-- long name, against the entries that it has passed.
use mathlib.Core.List.{append_assoc}
use nebula_os.Common.{
  ℕ, zero, suc, ◌+◌, ◌-◌, ◌*◌, ◌/◌, ◌%◌, ◌≤◌, ◌<◌, ◌≡◌, ◌≢◌, ◌⊎◌, inl, inr, refl, ap, sym, ◌∙◌,
  subst, Bool, true, false, not, List, [], ◌∷◌, ◌++◌, ◌||◌, ◌==◌, leb, if◌then◌else◌, get_or, take,
  take-length, drop, length, length-append, bit_and, bit_and_mask, arith, Bool-cases, ==-cases,
}
use nebula_os.Vmm.Entries.{bit_and-shifted}
use nebula_os.Fat.Names.Directory.{LongName, repeated, take_part, take_long, c_string, trim_from}
use nebula_os.Fat.Names.Long.{
  text, part_text, length-text, IsParts, long_name, trim_from-without_spaces, without_spaces,
  without_spaces-repeated,
}
use nebula_os.Fat.Names.Written.{take_part_lem}

-- The buffer with the parts from the `i`th on, `k` being the number of those in front.
abbrev pub buffer : ℕ → List (List ℕ) → List ℕ
buffer k ds = repeated (k * 13) b' ' ++ (text ds ++ repeated (261 - 13 * (k + length ds)) b' ')

-- The parts from the `suc k`th on have been passed last; `past` are the entries of long names that
-- have been passed, the last of them first.
pub record Opened (k : ℕ) (current : List ℕ) (past : List (List ℕ)) : Type 0 where
  pub parts : List (List ℕ)
  pub older : List (List ℕ)
  pub split : past ≡ parts ++ older
  pub numbered : IsParts (suc k) parts
  pub few : k + length parts ≤ 20
  pub written : current ≡ buffer k parts

-- No name is open, or the parts from some number on have been read.
unfoldable pub Reading : LongName → List (List ℕ) → Type 0
Reading st past = (st.expected ≡ 0) ⊎ ((k : ℕ) × (st.expected ≡ k) × Opened k st.current past)

-- What makes a name complete.
unfoldable pub Complete : List ℕ → List (List ℕ) → Type 0
Complete current past =
    (parts : List (List ℕ)) × (older : List (List ℕ)) × (past ≡ parts ++ older)
    × IsParts 1 parts
    × (c_string current ≡ long_name parts)

length-repeated : (n c : ℕ) → length (repeated n c) ≡ n
unfolding repeated
length-repeated zero c = refl
length-repeated (suc n) c = ap (λ (k : ℕ). suc k) (length-repeated n c)

repeated-add : (m n c : ℕ) → repeated (m + n) c ≡ repeated m c ++ repeated n c
unfolding repeated
repeated-add zero n c = ap (λ k. repeated k c) (omega arith)
repeated-add (suc m) n c =
    ap (λ k. repeated k c) one_more ∙ ap (λ (l : List ℕ). c ∷ l) (repeated-add m n c)
  where
    one_more : suc m + n ≡ suc (m + n)
    one_more = omega arith

drop-repeated : (n c : ℕ) (s : List ℕ) → drop n (repeated n c ++ s) ≡ s
unfolding repeated
drop-repeated zero c s = refl
drop-repeated (suc n) c s = drop-repeated n c s

-- A part goes into a buffer that has spaces at its place.
place_part :
    (k : ℕ) (d back : List ℕ)
    → take_part (k * 13) d (repeated (suc k * 13) b' ' ++ back)
      ≡ repeated (k * 13) b' ' ++ (part_text d ++ back)
place_part k d back =
    let front = repeated (k * 13) b' ' in
    let mid = repeated 13 b' ' ++ back in
    let more : suc k * 13 ≡ k * 13 + 13 = omega arith in
    let cut : repeated (suc k * 13) b' ' ++ back ≡ front ++ mid =
      ap (λ n. repeated n b' ' ++ back) more
      ∙ ap (λ (l : List ℕ). l ++ back) (repeated-add (k * 13) 13 b' ')
      ∙ append_assoc front (repeated 13 b' ') back in
    let room : 13 ≤ length mid =
      omega (arith, length-append (repeated 13 b' ') back, length-repeated 13 b' ') in
    let written = take_part_lem front mid d room in
    ap (take_part (k * 13) d) cut
    ∙ subst (λ n. take_part n d (front ++ mid) ≡ front ++ (part_text d ++ drop 13 mid))
        (length-repeated (k * 13) b' ') written
    ∙ ap (λ (t : List ℕ). front ++ (part_text d ++ t)) (drop-repeated 13 b' ' back)

-- The first part of a name, in a cleared buffer.
opens :
    (k : ℕ) (d : List ℕ) (past : List (List ℕ))
    → k < 20
    → get_or d 0 0 % 32 ≡ suc k
    → get_or d 0 0 ≢ 0xE5
    → get_or d 0 0 / 64 % 2 ≡ 1
    → Opened k (take_part (k * 13) d (repeated 261 b' ')) (d ∷ past)
opens k d past lt num live flag = record {
  parts = d ∷ [];
  older = past;
  split = refl;
  numbered = ((num, live), flag);
  few = omega (arith, lt);
  written =
      let n = 261 - 13 * (k + 1) in
      let whole : 261 ≡ suc k * 13 + n = omega (arith, lt) in
      ap (take_part (k * 13) d) (ap (λ m. repeated m b' ') whole ∙ repeated-add (suc k * 13) n b' ')
      ∙ place_part k d (repeated n b' ');
}

IsParts-cons :
    (k : ℕ) (d : List ℕ) (parts : List (List ℕ))
    → get_or d 0 0 % 32 ≡ suc k
    → get_or d 0 0 ≢ 0xE5
    → get_or d 0 0 / 64 % 2 ≡ 0
    → IsParts (suc (suc k)) parts
    → IsParts (suc k) (d ∷ parts)
IsParts-cons k d [] num live flag h = absurd h
IsParts-cons k d (e ∷ parts) num live flag h = ((num, live), flag, h)

-- One more part in front of those that have been read.
continues :
    (k : ℕ) (d current : List ℕ) (past : List (List ℕ))
    → get_or d 0 0 % 32 ≡ suc k
    → get_or d 0 0 ≢ 0xE5
    → get_or d 0 0 / 64 % 2 ≡ 0
    → Opened (suc k) current past
    → Opened k (take_part (k * 13) d current) (d ∷ past)
continues k d current past num live flag o = record {
  parts = d ∷ o.parts;
  older = o.older;
  split = ap (λ (l : List (List ℕ)). d ∷ l) o.split;
  numbered = IsParts-cons k d o.parts num live flag o.numbered;
  few = omega (arith, o.few);
  written =
      let n = 261 - 13 * (suc k + length o.parts) in
      let same : n ≡ 261 - 13 * (k + suc (length o.parts)) = omega arith in
      ap (take_part (k * 13) d) o.written
      ∙ place_part k d (text o.parts ++ repeated n b' ')
      ∙ ap (λ m. repeated (k * 13) b' ' ++ (part_text d ++ (text o.parts ++ repeated m b' '))) same;
}

-- The name is complete with its first part.
completes :
    (current : List ℕ) (past : List (List ℕ))
    → Opened 0 current past
    → Complete (trim_from 260 current) past
unfolding Complete long_name repeated
completes current past o =
    let n = 260 - 13 * length o.parts in
    let full = text o.parts ++ repeated n b' ' in
    let more : 261 - 13 * (0 + length o.parts) ≡ n + 1 = omega (arith, o.few) in
    let buffer_is : current ≡ full ++ b' ' ∷ [] =
      o.written
      ∙ ap (λ m. text o.parts ++ repeated m b' ') more
      ∙ ap (λ (t : List ℕ). text o.parts ++ t) (repeated-add n 1 b' ')
      ∙ sym (append_assoc (text o.parts) (repeated n b' ') (b' ' ∷ [])) in
    let size : length full ≡ 260 = omega (
      arith,
      length-append (text o.parts) (repeated n b' '),
      length-text o.parts,
      length-repeated n b' ',
      o.few,
    ) in
    let room : 260 < length (full ++ b' ' ∷ []) =
      omega (arith, size, length-append full (b' ' ∷ [])) in
    (
      o.parts,
      o.older,
      o.split,
      o.numbered,
      ap (λ s. c_string (trim_from 260 s)) buffer_is
          ∙ trim_from-without_spaces 260 (full ++ b' ' ∷ []) room
          ∙ ap (λ s. c_string (without_spaces s))
              (ap (λ m. take m (full ++ b' ' ∷ [])) (sym size) ∙ take-length full (b' ' ∷ []))
          ∙ ap c_string (without_spaces-repeated (text o.parts) n),
    )

-- What the bits of the sequence byte are.
sequence_number : (b : ℕ) → bit_and b 0x1F ≡ b % 32
sequence_number b = bit_and_mask 5 b

sequence_flag : (b : ℕ) → bit_and b 0x40 ≡ b / 64 % 2 * 64
sequence_flag b = bit_and-shifted 6 b 1 ∙ ap (λ n. n * 64) (bit_and_mask 1 (b / 64))

module _ (d : List ℕ) (past : List (List ℕ)) where
  -- The state behind an entry, and whether it completes a name.
  abbrev pub Kept : Bool × LongName → Type 0
  Kept r = Reading r.1 (d ∷ past) × (r.0 ≡ true → Complete r.1.current (d ∷ past))

  dropped : (st : LongName) → Kept (false, record st { expected = 0 })
  unfolding Reading
  dropped st = (inl refl, λ e. absurd (cc e))

  -- `take_long` behind the test of the flag.
  abbrev counted : LongName → Bool × LongName
  counted begun =
      let seq_num = bit_and (get_or d 0 0) 0x1F in
      let taken = take_part ((seq_num - 1) * 13) d begun.current in
      if (seq_num == 0 || not (seq_num == begun.expected)) || leb 260 ((seq_num - 1) * 13)
      then (false, record begun { expected = 0 })
      else if seq_num == 1
      then (true, record { current = trim_from 260 taken; expected = begun.expected - 1 })
      else (false, record { current = taken; expected = begun.expected - 1 })

  numbered :
      (k : ℕ) (current : List ℕ)
      → Opened k (take_part (k * 13) d current) (d ∷ past)
      → Kept (
          if suc k == 1
          then (
            true,
            record { current = trim_from 260 (take_part (k * 13) d current); expected = k },
          )
          else (false, record { current = take_part (k * 13) d current; expected = k }))
  unfolding Reading
  numbered zero current o = (inl refl, λ e. completes (take_part (0 * 13) d current) (d ∷ past) o)
  numbered (suc k) current o =
      let other : (suc (suc k) == 1) ≡ false = ground arith in
      rw other (inr (suc k, refl, o), λ e. absurd (cc e))

  counted-Kept :
      (begun : LongName)
      → ((k : ℕ)
          → get_or d 0 0 % 32 ≡ suc k
          → begun.expected ≡ suc k
          → k < 20
          → Opened k (take_part (k * 13) d begun.current) (d ∷ past))
      → Kept (counted begun)
  counted-Kept begun opened =
      let seq_num = bit_and (get_or d 0 0) 0x1F in
      elim (Bool-cases
        ((seq_num == 0 || not (seq_num == begun.expected)) || leb 260 ((seq_num - 1) * 13))) [
          | inl bad ↦ rw bad (dropped begun)
          | inr good ↦
              let k = seq_num - 1 in
              let seq : seq_num ≡ suc k = ground (arith, good) in
              let same : begun.expected ≡ suc k = ground (arith, good) in
              let low : k < 20 = ground (arith, good) in
              let num : get_or d 0 0 % 32 ≡ suc k = sym (sequence_number (get_or d 0 0)) ∙ seq in
              let kept = numbered k begun.current (opened k num same low) in
              let pred : begun.expected - 1 ≡ k = omega (arith, same) in
              let one : (seq_num == 1) ≡ (suc k == 1) = ap (λ n. n == 1) seq in
              rw (good, pred, one) kept
        ]

-- An entry of a long name keeps the state and the entries in step, and a name that it completes is
-- made of the parts that were passed last.
pub take_long-Reading :
    (st : LongName) (d : List ℕ) (past : List (List ℕ))
    → Reading st past
    → Kept d past (take_long d st)
unfolding take_long Reading
take_long-Reading st d past reading = elim (==-cases (get_or d 0 0) 0xE5) [
  | inl (e, b) ↦ rw b (dropped d past st)
  | inr (live, b) ↦ elim (Bool-cases (not (bit_and (get_or d 0 0) 0x40 == 0))) [
    | inl f ↦
        let flag : get_or d 0 0 / 64 % 2 ≡ 1 = ground (arith, f, sequence_flag (get_or d 0 0)) in
        rw (b, f)
          (counted-Kept d past
            (record { current = repeated 261 b' '; expected = bit_and (get_or d 0 0) 0x1F })
            (λ k num same low. opens k d past low num live flag))
    | inr f ↦
        let flag : get_or d 0 0 / 64 % 2 ≡ 0 = ground (arith, f, sequence_flag (get_or d 0 0)) in
        rw (b, f)
          (counted-Kept d past st (λ k num same low. elim reading [
            | inl none_open ↦ absurd (omega (arith, none_open, same))
            | inr (l, el, o) ↦
                continues k d st.current past num live flag
                  (subst (λ m. Opened m st.current past) (sym el ∙ same) o)
          ]))
  ]
]
