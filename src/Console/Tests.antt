-- ===== src/Console/Tests.antt =====
-- Runs of the console and of the kernel's entry, and instances of their theorems.
use nebula_os.Common.{ℕ, ◌≡◌, ◌≢◌, refl, false, none, List, [], ◌∷◌, arith, length}
use nebula_os.Console.{
  Console, cell, outb, inb, serial_init, serial_wait, serial_putc, place, scroll, vga_putc,
  console_putc, console_write, console_write_hex,
}
use nebula_os.Console.Screen.{Page, page_putc, top_after, Shows, vga_putc-Shows}
use nebula_os.Console.Serial.{BecomesReady, Written, write-Written}
use nebula_os.Console.Hex.{read_hex, console_write_hex_lem}

-- A cleared screen with the cursor in its last cell, and the page that it shows.
abbrev corner : Console
corner = record {
  vga = λ i. cell b' ';
  cursor_row = 24;
  cursor_col = 79;
  serial_initialized = false;
  sent = [];
  reads = 0;
}

abbrev corner_page : Page
corner_page = record { cells = λ j. cell b' '; row = 24; col = 79 }

corner-Shows : Shows 0 corner_page corner
corner-Shows = record {
  cells_agree = λ i h. refl;
  blank_below = λ j h. refl;
  row_agrees = refl;
  col_agrees = refl;
  row_in = omega arith;
  col_in = omega arith;
}

-- The transmitter is always ready.
abbrev always_ready : ℕ → ℕ
always_ready n = 0x60

always_ready-BecomesReady : BecomesReady always_ready 1
always_ready-BecomesReady n = (0, omega arith, λ h. omega arith)

newline_scrolls : (vga_putc b'\n' corner).cursor_row ≡ 24
unfolding vga_putc place scroll
newline_scrolls = refl

letter : (vga_putc b'A' (record corner { cursor_row = 3; cursor_col = 5 })).vga 245 ≡ 0x0F41
unfolding vga_putc place scroll cell
letter = refl

first_byte :
    console_write always_ready 1 (b'A' ∷ []) (record corner { cursor_row = 0; cursor_col = 0 })
    ≢ none
unfolding console_write console_putc serial_putc serial_wait serial_init outb inb
first_byte = ground arith

vga_putc-Shows_example :
    Shows (top_after 0 b'A' corner_page) (page_putc b'A' corner_page) (vga_putc b'A' corner)
vga_putc-Shows_example = vga_putc-Shows b'A' corner-Shows

write-Written_example :
    Written 0 corner_page
      (b'o' ∷ b'k' ∷ b'\n' ∷ [])
      corner
      (console_write always_ready 1 (b'o' ∷ b'k' ∷ b'\n' ∷ []) corner)
write-Written_example =
    write-Written always_ready 1 always_ready-BecomesReady (b'o' ∷ b'k' ∷ b'\n' ∷ []) corner-Shows

console_write_hex_lem_example :
    (text : List ℕ) × (console_write_hex always_ready 1 0xDEADBEEF corner
      ≡ console_write always_ready 1 text corner)
    × (length text ≡ 16)
    × (read_hex 0 text ≡ 0xDEADBEEF)
console_write_hex_lem_example = console_write_hex_lem always_ready 1 0xDEADBEEF corner (omega arith)
