-- ===== src/Blake2b/Filter.antt =====
-- The file filter of boot/limine/limine/common/crypt/blake2b.c, which hashes what is read through
-- it. The file below it is a parameter: `fread loc count` are the bytes that it gives.
use nebula_os.Common.{
  ℕ, ◌+◌, ◌≡◌, ◌≢◌, refl, ap, ◌∙◌, Bool, true, false, not, List, [], ◌∷◌, ◌==◌, if◌then◌else◌,
  length, length-append, arith, Outcome, ok, panic, ◌>>=◌,
}
use nebula_os.Blake2b.{State, blake2b, blake2b_init, blake2b_update, blake2b_final}
use nebula_os.Blake2b.Digest.{update_all, concat, update_all-concat}

-- `struct blake2b_handle`, without its source.
pub record Handle : Type 0 where
  pub state : State
  pub pos : ℕ
  pub finalized : Bool
  pub digest : List ℕ

-- The panic "blake2b filter: non-sequential read".
pub data NonSequential : Type 0 where
  non_sequential : NonSequential

-- The handle that `blake2b_open` makes.
unfoldable pub blake2b_open : Handle
blake2b_open = record { state = blake2b_init; pos = 0; finalized = false; digest = [] }

-- `memcmp(a, b, n) == 0` on arrays of the same length.
unfoldable pub same_bytes : List ℕ → List ℕ → Bool
same_bytes [] [] = true
same_bytes [] (y ∷ ys) = false
same_bytes (x ∷ xs) [] = false
same_bytes (x ∷ xs) (y ∷ ys) = let rest = same_bytes xs ys in if x == y then rest else false

module _ (fread : ℕ → ℕ → List ℕ) where
  -- What is read, and the handle behind it.
  unfoldable pub blake2b_read : Handle → ℕ → ℕ → Outcome NonSequential (List ℕ × Handle)
  blake2b_read h loc count =
      if not (loc == h.pos)
      then panic non_sequential
      else let got = fread loc count in
        ok (got, record h { state = blake2b_update h.state got; pos = h.pos + length got })

  -- Reads of the given sizes from the place `loc` of the file on, each where the one before it ended.
  pub read_on : ℕ → List ℕ → Handle → Outcome NonSequential (List (List ℕ) × Handle)
  read_on loc [] h = ok ([], h)
  read_on loc (count ∷ counts) h = blake2b_read h loc count >>= λ r.
      read_on (loc + length (r.0)) counts (r.1) >>= λ rs. ok (r.0 ∷ rs.0, rs.1)

-- `blake2b_check_hash`, on a handle of the filter.
unfoldable pub blake2b_check_hash : Handle → List ℕ → Bool × Handle
blake2b_check_hash h reference_hash =
    let h' =
      if not h.finalized
      then (let (digest, state) = blake2b_final h.state in
          record h { state = state; digest = digest; finalized = true })
      else h in
    (same_bytes h'.digest reference_hash, h')

-- Any number of checks, against any hashes.
pub check_all : List (List ℕ) → Handle → Handle
check_all [] h = h
check_all (hash ∷ hashes) h = check_all hashes (blake2b_check_hash h hash).1

-- What the filter promises behind reads that gave `xs`: each check, whatever checks were made
-- before it, compares the hash of `xs`, and a read that does not go on behind `xs` panics.
pub record IsChecked (xs : List ℕ) (h : Handle) : Type 0 where
  pub checks :
      (hashes : List (List ℕ)) (hash : List ℕ)
      → (blake2b_check_hash (check_all hashes h) hash).0 ≡ same_bytes (blake2b xs) hash
  pub refuses :
      (fread : ℕ → ℕ → List ℕ) (loc count : ℕ)
      → loc ≢ length xs
      → blake2b_read fread h loc count ≡ panic non_sequential

-- A handle whose digest is settled.
checked_again :
    (hashes : List (List ℕ)) (hash : List ℕ) (h : Handle)
    → h.finalized ≡ true
    → (blake2b_check_hash (check_all hashes h) hash).0 ≡ same_bytes h.digest hash
unfolding blake2b_check_hash check_all
checked_again [] hash h fin = ground (arith, fin)
checked_again (hash' ∷ hashes) hash h fin =
    let same_handle : (blake2b_check_hash h hash').1 ≡ h = ground (arith, fin) in
    ap (λ x. (blake2b_check_hash (check_all hashes x) hash).0) same_handle
    ∙ checked_again hashes hash h fin

checked :
    (hashes : List (List ℕ)) (hash : List ℕ) (h : Handle)
    → h.finalized ≡ false
    → (blake2b_check_hash (check_all hashes h) hash).0 ≡ same_bytes (blake2b_final h.state).0 hash
unfolding blake2b_check_hash check_all
checked [] hash h fin = ground (arith, fin)
checked (hash' ∷ hashes) hash h fin =
    let h1 = (blake2b_check_hash h hash').1 in
    let settled : h1.finalized ≡ true = ground (arith, fin) in
    let result : h1.digest ≡ (blake2b_final h.state).0 = ground (arith, fin) in
    checked_again hashes hash h1 settled ∙ ap (λ xs. same_bytes xs hash) result

refused :
    (fread : ℕ → ℕ → List ℕ) (h : Handle) (loc count : ℕ)
    → loc ≢ h.pos
    → blake2b_read fread h loc count ≡ panic non_sequential
unfolding blake2b_read
refused fread h loc count ne = ground (arith, ne)

module _ (fread : ℕ → ℕ → List ℕ) where
  -- What the file gives for reads of these sizes from the place on.
  pub reads : ℕ → List ℕ → List (List ℕ)
  reads loc [] = []
  reads loc (count ∷ counts) = let got = fread loc count in got ∷ reads (loc + length got) counts

  read_on_lem :
      (counts : List ℕ) (loc : ℕ) (h : Handle)
      → h.pos ≡ loc
      → (h' : Handle) × (read_on fread loc counts h ≡ ok (reads loc counts, h'))
        × (h'.state ≡ update_all h.state (reads loc counts))
        × (h'.finalized ≡ h.finalized)
        × (h'.pos ≡ loc + length (concat (reads loc counts)))
  unfolding read_on blake2b_read reads
  read_on_lem [] loc h at = (h, refl, refl, refl, omega (arith, at))
  read_on_lem (count ∷ counts) loc h at =
      let got = fread loc count in
      let h1 : Handle = record h { state = blake2b_update h.state got; pos = h.pos + length got } in
      let (h', e, st, fin, end) = read_on_lem counts (loc + length got) h1 (omega (arith, at)) in
      (
        h',
        ground (arith, at, e),
        st,
        fin,
        omega (arith, end, length-append got (concat (reads (loc + length got) counts))),
      )

  -- Reads from the start of the file, each at the place where the one before it ended, never panic.
  -- Behind them a check compares the digest that `blake2b` computes for all that was read with the
  -- reference, however many checks were made before it, and a read anywhere else panics.
  pub check_hash-blake2b :
      (counts : List ℕ)
      → (h : Handle) × (read_on fread 0 counts blake2b_open ≡ ok (reads 0 counts, h))
        × IsChecked (concat (reads 0 counts)) h
  unfolding blake2b_open
  check_hash-blake2b counts =
      let (h, e, st, fin, at) = read_on_lem counts 0 blake2b_open refl in
      let d = ap (λ s. (blake2b_final s).0) st ∙ update_all-concat (reads 0 counts) in
      let pos : h.pos ≡ length (concat (reads 0 counts)) = omega (arith, at) in
      (
        h,
        e,
        record {
          checks = λ hashes hash. checked hashes hash h fin ∙ ap (λ xs. same_bytes xs hash) d;
          refuses = λ fread loc count ne. refused fread h loc count (λ e. ne (e ∙ pos));
        },
      )
