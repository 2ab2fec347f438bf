-- ===== src/Fat/Names/Found.antt =====
-- What the search of `fat32_open_in` in boot/limine/limine/common/fs/fat32.s2.c finds.
use nebula_os.Common.{
  map, sym, ◌∙◌, ℕ, ◌≡◌, ◌≢◌, ◌⊎◌, inl, inr, refl, ap, subst, ◌++◌, Bool, true, false, ◌&&◌, some,
  List, [], ◌∷◌, ◌==◌, if◌then◌else◌, get_or, take, bit_and, arith, Bool-cases, Option-cases,
  ==-cases,
}
use nebula_os.Volume.Partitions.{equal_bytes}
use nebula_os.Libc.{tolower}
use nebula_os.Libc.Compare.{strcmp-same, strcasecmp-same}
use nebula_os.Fat.Names.{filename_to_8_3}
use nebula_os.Fat.Names.Long.{IsParts, long_name}
use nebula_os.Fat.Names.Reading.{Reading, Complete, Kept, take_long-Reading}
use nebula_os.Fat.Names.Directory.{
  attribute, LongName, take_long, c_string, equal_names, entry_behind, has_short, find_entry,
}

-- The entries that a search passes: those that are not behind the end mark.
pub data IsBefore : List ℕ → List (List ℕ) → Type 0 where
  here : {e : List ℕ} {es : List (List ℕ)} → get_or e 0 0 ≢ 0 → IsBefore e (e ∷ es)
  there :
      {e d : List ℕ} {es : List (List ℕ)} → get_or d 0 0 ≢ 0 → IsBefore e es → IsBefore e (d ∷ es)

-- The entry has the name as its short name, and is no label and no part of a long name.
abbrev pub HasShort : List ℕ → List ℕ → Type 0
HasShort name e =
    (bit_and (attribute e) 8 ≡ 0) × (attribute e ≢ 0x0F) × (filename_to_8_3 name ≡ some (take 11 e))

-- The names are the same, or in lower case if the case does not count.
abbrev pub SameName : Bool → List ℕ → List ℕ → Type 0
SameName true a b = map tolower a ≡ map tolower b
SameName false a b = a ≡ b

-- The entries of long names among `front`, the last one first, and then those in `past`.
pub passed : List (List ℕ) → List (List ℕ) → List (List ℕ)
passed past [] = past
passed past (d ∷ front) = if attribute d == 0x0F then passed (d ∷ past) front else passed past front

-- The entry stands right behind the first part of a long name; the entries of long names that end
-- with this part are the parts of the name, with numbers from 1 on, back to one with the flag of a
-- beginning; and their text is the name. The entry is not deleted and no part of a long name.
pub record HasLong (ci : Bool) (name : List ℕ) (past es : List (List ℕ)) (e : List ℕ) : Type 0 where
  pub front : List (List ℕ)
  pub first : List ℕ
  pub back : List (List ℕ)
  pub split : es ≡ front ++ first ∷ e ∷ back
  pub part : attribute first ≡ 0x0F
  pub parts : List (List ℕ)
  pub older : List (List ℕ)
  pub run : first ∷ passed past front ≡ parts ++ older
  pub numbered : IsParts 1 parts
  pub named : SameName ci (long_name parts) name
  pub live : get_or e 0 0 ≢ 0xE5
  pub file : attribute e ≢ 0x0F

-- One more entry in front.
HasLong-cons :
    (ci : Bool) (name : List ℕ) (past past' : List (List ℕ)) (d : List ℕ) (es : List (List ℕ))
    (e : List ℕ)
    → ((front : List (List ℕ)) → passed past (d ∷ front) ≡ passed past' front)
    → HasLong ci name past' es e
    → HasLong ci name past (d ∷ es) e
HasLong-cons ci name past past' d es e step h = record {
  front = d ∷ h.front;
  first = h.first;
  back = h.back;
  split = ap (λ (l : List (List ℕ)). d ∷ l) h.split;
  part = h.part;
  parts = h.parts;
  older = h.older;
  run = ap (λ (l : List (List ℕ)). h.first ∷ l) (step h.front) ∙ h.run;
  numbered = h.numbered;
  named = h.named;
  live = h.live;
  file = h.file;
}

passed-long :
    (past : List (List ℕ)) (d : List ℕ)
    → (attribute d == 0x0F) ≡ true
    → (front : List (List ℕ)) → passed past (d ∷ front) ≡ passed (d ∷ past) front
unfolding passed
passed-long past d b front = rw b refl

passed-short :
    (past : List (List ℕ)) (d : List ℕ)
    → (attribute d == 0x0F) ≡ false
    → (front : List (List ℕ)) → passed past (d ∷ front) ≡ passed past front
unfolding passed
passed-short past d b front = rw b refl

equal_bytes-same : (a b : List ℕ) → equal_bytes a b ≡ true → a ≡ b
unfolding equal_bytes
equal_bytes-same [] [] h = refl
equal_bytes-same [] (y ∷ b) h = absurd (cc h)
equal_bytes-same (x ∷ a) [] h = absurd (cc h)
equal_bytes-same (x ∷ a) (y ∷ b) h = let later = equal_bytes-same a b in ground (arith, h, later)

equal_names-SameName : (ci : Bool) (a b : List ℕ) → equal_names ci a b ≡ true → SameName ci a b
unfolding equal_names
equal_names-SameName true a b h = (strcasecmp-same a b).0 (ground (arith, h))
equal_names-SameName false a b h = (strcmp-same a b).0 (ground (arith, h))

entry_behind-found :
    (es : List (List ℕ)) (e : List ℕ)
    → entry_behind es ≡ some e
    → IsBefore e es
      × (get_or e 0 0 ≢ 0xE5)
      × (attribute e ≢ 0x0F)
      × ((back : List (List ℕ)) × (es ≡ e ∷ back))
unfolding entry_behind
entry_behind-found [] e h = absurd (cc h)
entry_behind-found (s ∷ es) e h =
    let same_entry : s ≡ e = ground (arith, h) in
    subst
      (λ x.
        IsBefore x (s ∷ es)
        × (get_or x 0 0 ≢ 0xE5)
        × (attribute x ≢ 0x0F)
        × ((back : List (List ℕ)) × (s ∷ es ≡ x ∷ back)))
      same_entry
      (
        here (λ z. ground (arith, h, z)),
        λ z. ground (arith, h, z),
        λ z. ground (arith, h, z),
        (es, refl),
      )

has_short-HasShort :
    (name e : List ℕ) → has_short name e ≡ true → attribute e ≢ 0x0F → HasShort name e
unfolding has_short
has_short-HasShort name e h ne = elim (Option-cases (filename_to_8_3 name)) [
  | inl f ↦ absurd (ground (arith, h, f))
  | inr (fn, f) ↦
      let same : equal_bytes (take 11 e) fn ≡ true = ground (arith, h, f) in
      (ground (arith, h), ne, f ∙ ap some (sym (equal_bytes-same (take 11 e) fn same)))
]

-- The entry behind the first part of the name.
long-found :
    (ci : Bool) (name : List ℕ) (st : LongName) (past : List (List ℕ)) (d : List ℕ)
    (es : List (List ℕ)) (e : List ℕ)
    → attribute d ≡ 0x0F
    → Kept d past (take_long d st)
    → ((take_long d st).0 && equal_names ci (c_string (take_long d st).1.current) name) ≡ true
    → entry_behind es ≡ some e
    → IsBefore e es × HasLong ci name past (d ∷ es) e
unfolding passed Complete
long-found ci name st past d es e z kept m h =
    let found = entry_behind-found es e h in
    let (parts, older, run, numbered, written) = kept.1 (ground (arith, m)) in
    let named =
      equal_names-SameName ci (c_string (take_long d st).1.current) name (ground (arith, m)) in
    (
      found.0,
      record {
        front = [];
        first = d;
        back = found.3.0;
        split = ap (λ (l : List (List ℕ)). d ∷ l) found.3.1;
        part = z;
        parts = parts;
        older = older;
        run = run;
        numbered = numbered;
        named = subst (λ s. SameName ci s name) written named;
        live = found.1;
        file = found.2;
      },
    )

search-found :
    (ci : Bool) (name : List ℕ) (st : LongName) (past es : List (List ℕ)) (e : List ℕ)
    → Reading st past
    → find_entry ci name st es ≡ some e
    → IsBefore e es × (HasShort name e ⊎ HasLong ci name past es e)
unfolding find_entry
search-found ci name st past [] e reading h = absurd (cc h)
search-found ci name st past (d ∷ es) e reading h =
    let kept = take_long-Reading st d past reading in
    let after_long = search-found ci name (take_long d st).1 (d ∷ past) es e kept.0 in
    let after_short = search-found ci name st past es e reading in
    elim (==-cases (get_or d 0 0) 0) [
      | inl (z, b) ↦ absurd (ground (arith, h, b))
      | inr (live, b) ↦ elim (==-cases (attribute d) 0x0F) [
        | inl (z, l) ↦
            elim (Bool-cases
              ((take_long d st).0 && equal_names ci (c_string (take_long d st).1.current) name)) [
                | inl m ↦
                    let found =
                      long-found ci name st past d es e z kept m (ground (arith, h, b, l, m)) in
                    (there live found.0, inr found.1)
                | inr m ↦
                    let later = after_long (ground (arith, h, b, l, m)) in
                    (
                      there live later.0,
                      elim later.1 [
                        | inl s ↦ inl s
                        | inr s ↦
                            inr
                              (HasLong-cons ci name past (d ∷ past) d es e (passed-long past d l) s)
                      ],
                    )
              ]
        | inr (ne, l) ↦ elim (Bool-cases (has_short name d)) [
          | inl m ↦
              let same_entry : d ≡ e = ground (arith, h, b, l, m) in
              subst (λ x. IsBefore x (d ∷ es) × (HasShort name x ⊎ HasLong ci name past (d ∷ es) x))
                same_entry (here live, inl (has_short-HasShort name d m ne))
          | inr m ↦
              let later = after_short (ground (arith, h, b, l, m)) in
              (
                there live later.0,
                elim later.1 [
                  | inl s ↦ inl s
                  | inr s ↦ inr (HasLong-cons ci name past past d es e (passed-short past d l) s)
                ],
              )
        ]
      ]
    ]

-- The entry that the search of a directory ends with, from a state in which no long name is being
-- read, stands in the directory before its end mark, and has the name that is looked for: as its
-- short name, and it is no label and no part of a long name; or as the long name whose parts end
-- right before it. These are the entries of long names that are passed last, with the numbers from
-- the one of the beginning, which alone has its flag, down to 1, none of them deleted; and what they
-- say, without spaces at its end and up to a NUL, is the name.
pub find_entry-found :
    (ci : Bool) (name : List ℕ) (st : LongName) (es : List (List ℕ)) (e : List ℕ)
    → st.expected ≡ 0
    → find_entry ci name st es ≡ some e
    → IsBefore e es × (HasShort name e ⊎ HasLong ci name [] es e)
unfolding Reading
find_entry-found ci name st es e none_open h = search-found ci name st [] es e (inl none_open) h
