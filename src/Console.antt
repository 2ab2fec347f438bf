-- ===== src/Console.antt =====
-- kernel/src/console.c: the VGA text screen and the COM1 serial port of the kernel.
-- The video memory is a function from the index of a 16-bit cell, and the ports are a log of
-- what `outb` sends. What `inb` reads from the line status register is the environment's
-- choice: the stream `line_status`, the first argument of what waits for the transmitter.
pub mod Screen
pub mod Serial
pub mod Hex
pub mod Tests
use nebula_os.Common.{
  ℕ, zero, suc, ◌+◌, ◌-◌, ◌*◌, ◌/◌, ◌%◌, ◌^◌, Bool, true, false, Option, none, some, List, [], ◌∷◌,
  ◌++◌, ◌==◌, leb, if◌then◌else◌, store, u8, u16, ◌<<<◌, ◌>>>◌, bit_and, bit_or, get_or,
}

-- One `outb(port, val)`.
pub record Outb : Type 0 where
  pub port : ℕ
  pub val : ℕ

-- The static variables of the file, with the ports' log, oldest first, and how often the line
-- status register was read.
pub record Console : Type 0 where
  pub vga : ℕ → ℕ
  pub cursor_row : ℕ
  pub cursor_col : ℕ
  pub serial_initialized : Bool
  pub sent : List Outb
  pub reads : ℕ

-- white on black
abbrev pub attr : ℕ
attr = 0x0F

-- COM1
abbrev pub base : ℕ
base = 0x3F8

-- `(uint16_t)(attr << 8) | (uint8_t)c`
unfoldable pub cell : ℕ → ℕ
cell c = bit_or (u16 (attr <<< 8)) (u8 c)

unfoldable pub outb : ℕ → ℕ → Console → Console
outb port val s = record s { sent = s.sent ++ record { port = port; val = val } ∷ [] }

unfoldable pub inb : Console → Console
inb s = record s { reads = s.reads + 1 }

unfoldable pub serial_init : Console → Console
unfolding outb inb
serial_init s =
    let s = outb (base + 1) 0x00 s in
    let s = outb (base + 3) 0x80 s in
    let s = outb (base + 0) 0x03 s in
    let s = outb (base + 1) 0x00 s in
    let s = outb (base + 3) 0x03 s in
    let s = outb (base + 2) 0xC7 s in
    let s = outb (base + 4) 0x0B s in let s = inb s in record s { serial_initialized = true }

-- The wait for an empty transmit register: `none` when `fuel` reads have not shown it empty.
unfoldable pub serial_wait : (ℕ → ℕ) → ℕ → Console → Option Console
unfolding inb
serial_wait line_status zero s = none
serial_wait line_status (suc fuel) s =
    let again = serial_wait line_status fuel (inb s) in
    if bit_and (line_status s.reads) 0x20 == 0 then again else some (inb s)

module _ (line_status : ℕ → ℕ) (fuel : ℕ) where
  unfoldable pub serial_putc : ℕ → Console → Option Console
  serial_putc c s =
      let s = if s.serial_initialized then s else serial_init s in
      elim (serial_wait line_status fuel s) [
        | none ↦ none
        | some s' ↦ some (outb (base + 0) (u8 c) s')
      ]

-- `for (cc = 0; cc < 80; cc++) vga[(r - 1) * 80 + cc] = vga[r * 80 + cc];`, with `n` rounds left.
unfoldable pub copy_row : ℕ → ℕ → ℕ → (ℕ → ℕ) → ℕ → ℕ
copy_row zero cc r vga = vga
copy_row (suc n) cc r vga =
    copy_row n (cc + 1) r (store vga ((r - 1) * 80 + cc) (vga (r * 80 + cc)))

-- `for (r = 1; r < 25; r++) …`, with `n` rounds left.
unfoldable pub copy_rows : ℕ → ℕ → (ℕ → ℕ) → ℕ → ℕ
copy_rows zero r vga = vga
copy_rows (suc n) r vga = copy_rows n (r + 1) (copy_row 80 0 r vga)

-- `for (cc = 0; cc < 80; cc++) vga[24 * 80 + cc] = (uint16_t)(attr << 8) | ' ';`
unfoldable pub clear_row : ℕ → ℕ → (ℕ → ℕ) → ℕ → ℕ
clear_row zero cc vga = vga
clear_row (suc n) cc vga = clear_row n (cc + 1) (store vga (24 * 80 + cc) (cell b' '))

-- The last block of `vga_putc`.
unfoldable pub scroll : Console → Console
scroll s =
    if leb 25 s.cursor_row
    then record s { vga = clear_row 80 0 (copy_rows 24 1 s.vga); cursor_row = 24 }
    else s

-- The character's own effect, before the scroll.
unfoldable pub place : ℕ → Console → Console
place c s =
    if c == b'\n'
    then record s { cursor_row = s.cursor_row + 1; cursor_col = 0 }
    else if c == b'\r'
    then record s { cursor_col = 0 }
    else let s' = record s {
      vga = store s.vga (s.cursor_row * 80 + s.cursor_col) (cell c);
      cursor_col = s.cursor_col + 1;
    } in
      if leb 80 s'.cursor_col
      then record s' { cursor_col = 0; cursor_row = s'.cursor_row + 1 }
      else s'

unfoldable pub vga_putc : ℕ → Console → Console
vga_putc c s = scroll (place c s)

module _ (line_status : ℕ → ℕ) (fuel : ℕ) where
  unfoldable pub console_putc : ℕ → Console → Option Console
  console_putc c s = elim (serial_putc line_status fuel c s) [
    | none ↦ none
    | some s' ↦ some (vga_putc c s')
  ]

  -- The list is the text before its terminating NUL.
  unfoldable pub console_write : List ℕ → Console → Option Console
  console_write [] s = some s
  console_write (c ∷ cs) s = elim (console_putc c s) [ none ↦ none | some s' ↦ console_write cs s' ]

-- `hex[d]` in `"0123456789ABCDEF"`
unfoldable pub hex : ℕ → ℕ
hex d =
    get_or
      (b'0' ∷ b'1' ∷ b'2' ∷ b'3' ∷ b'4' ∷ b'5' ∷ b'6' ∷ b'7' ∷ b'8' ∷ b'9' ∷ b'A' ∷ b'B' ∷ b'C'
        ∷ b'D' ∷ b'E' ∷ b'F' ∷ [])
      d 0

module _ (line_status : ℕ → ℕ) (fuel : ℕ) where
  -- The loop of `console_write_hex` from `i = 4 * (n - 1)` down to 0.
  unfoldable pub write_hex_from : ℕ → ℕ → Console → Option Console
  write_hex_from zero x s = some s
  write_hex_from (suc n) x s =
      elim (console_putc line_status fuel (hex (bit_and (x >>> (4 * n)) 0xF)) s) [
        | none ↦ none
        | some s' ↦ write_hex_from n x s'
      ]

  unfoldable pub console_write_hex : ℕ → Console → Option Console
  console_write_hex x s = write_hex_from 16 x s
