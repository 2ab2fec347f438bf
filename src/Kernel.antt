-- ===== src/Kernel.antt =====
-- kernel/src/main.c: the kernel's entry, which writes its banner to the console and halts.
pub mod Tests
use Prim.Native.Char.{code}
use Prim.Native.String
use Prim.Native.String.{String}
use nebula_os.Common.{
  ℕ, zero, suc, ◌≡◌, refl, ◌+◌, ◌*◌, ◌<◌, ◌≤◌, ◌-◌, false, Bool, Option, some, none, List, [], ◌∷◌,
  ◌++◌, ap, sym, ◌∙◌, arith, ltb, ◌==◌, if◌then◌else◌, Option-cases, inl, inr,
}
use nebula_os.Console.{Console, cell, console_putc, console_write}
use nebula_os.Console.Screen.{Page, page_putc, top_after, Shows}
use nebula_os.Console.Serial.{BecomesReady, Written, page_write, top_write, write-Written}

-- The bytes of a string literal.
abbrev pub codes : String → List ℕ
codes String.[] = []
codes (String.◌∷◌ c s) = code c ∷ codes s

abbrev pub line_1 : List ℕ
line_1 = codes "NebulaOS: minimal kernel booted\n"

abbrev pub line_2 : List ℕ
line_2 = codes "Serial+Screen console active.\n"

abbrev pub line_3 : List ℕ
line_3 = codes "UEFI+Limine pipeline reaching stage 1.\n"

abbrev pub line_4 : List ℕ
line_4 = codes "Kernel loop...\n"

infixl 5 ◌>>=◌
abbrev ◌>>=◌ : Option Console → (Console → Option Console) → Option Console
none >>= f = none
some s >>= f = f s

-- `_start`: the state in which the processor halts for ever.
pub start : (ℕ → ℕ) → ℕ → Console → Option Console
start line_status fuel s = do
  s ← console_write line_status fuel line_1 s
  s ← console_write line_status fuel line_2 s
  s ← console_write line_status fuel line_3 s
  console_write line_status fuel line_4 s

-- The static variables before `_start`, over whatever the video memory holds.
pub boot_console : (ℕ → ℕ) → Console
boot_console vga = record {
  vga = vga;
  cursor_row = 0;
  cursor_col = 0;
  serial_initialized = false;
  sent = [];
  reads = 0;
}

-- The page that the first screen shows: blank below what the video memory holds.
pub boot_page : (ℕ → ℕ) → Page
boot_page vga = record { cells = λ j. if ltb j 2000 then vga j else cell b' '; row = 0; col = 0 }

boot-Shows : (vga : ℕ → ℕ) → Shows 0 (boot_page vga) (boot_console vga)
unfolding boot_page boot_console
boot-Shows vga = record {
  cells_agree = λ i h. ground arith;
  blank_below = λ j h. ground arith;
  row_agrees = refl;
  col_agrees = refl;
  row_in = omega arith;
  col_in = omega arith;
}

console_write-append :
    (line_status : ℕ → ℕ) (fuel : ℕ) (cs ds : List ℕ) (s : Console)
    → console_write line_status fuel (cs ++ ds) s
      ≡ (console_write line_status fuel cs s >>= λ s1. console_write line_status fuel ds s1)
unfolding console_write
console_write-append line_status fuel [] ds s = refl
console_write-append line_status fuel (c ∷ cs) ds s =
    elim (Option-cases (console_putc line_status fuel c s)) [
      | inl e ↦ ground (arith, e)
      | inr (s1, e) ↦ ground (arith, e, console_write-append line_status fuel cs ds s1)
    ]

abbrev pub banner : List ℕ
banner = line_1 ++ (line_2 ++ (line_3 ++ line_4))

write_four :
    (line_status : ℕ → ℕ) (fuel : ℕ) (a b c d : List ℕ) (s : Console)
    → (do
      s ← console_write line_status fuel a s
      s ← console_write line_status fuel b s
      s ← console_write line_status fuel c s
      console_write line_status fuel d s)
      ≡ console_write line_status fuel (a ++ (b ++ (c ++ d))) s
write_four line_status fuel a b c d s = sym (simp console_write-append)

start-eq-write :
    (line_status : ℕ → ℕ) (fuel : ℕ) (s : Console)
    → start line_status fuel s ≡ console_write line_status fuel banner s
unfolding start
start-eq-write line_status fuel s = write_four line_status fuel line_1 line_2 line_3 line_4 s

-- With a transmitter that becomes ready within `fuel` reads, `_start` comes to its halt from the
-- state before the kernel ran, whatever the video memory holds: the serial port has been set up
-- once and has sent the four lines of the banner, and the screen shows them on the page, from its
-- first line.
pub start-Written :
    (line_status : ℕ → ℕ) (fuel : ℕ) (vga : ℕ → ℕ)
    → BecomesReady line_status fuel
    → Written 0
        (boot_page vga)
        banner
        (boot_console vga)
        (start line_status fuel (boot_console vga))
start-Written line_status fuel vga ready =
    rw start-eq-write (write-Written line_status fuel ready banner (boot-Shows vga))
