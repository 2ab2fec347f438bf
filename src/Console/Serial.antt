-- ===== src/Console/Serial.antt =====
-- Writing through kernel/src/console.c: what goes out of the serial port, and that a write ends
-- when the transmitter becomes ready again and again.
use mathlib.Core.List.{append_assoc, append-nil}
use nebula_os.Common.{
  ℕ, zero, suc, ◌+◌, ◌<◌, ◌≡◌, ◌≢◌, refl, Bool, true, false, Option, some, List, [], ◌∷◌, ◌++◌, map,
  ◌==◌, ◌∙◌, ap, arith, Bool-cases, inl, inr, bit_and, u8,
}
use nebula_os.Console.{
  Console, Outb, base, inb, outb, serial_init, serial_wait, serial_putc, place, scroll, vga_putc,
  console_putc, console_write,
}
use nebula_os.Console.Screen.{Page, page_putc, top_after, Shows, vga_putc-Shows}

-- The transmitter of a 16550: from any read of the line status register on, one of the next
-- `bound` reads has the bit 0x20 set.
abbrev pub BecomesReady : (ℕ → ℕ) → ℕ → Type 0
BecomesReady line_status bound =
    (n : ℕ) → (k : ℕ) × (k < bound) × (bit_and (line_status (n + k)) 0x20 ≢ 0)

-- A byte for the transmit register.
unfoldable pub tx : ℕ → Outb
tx c = record { port = base; val = u8 c }

-- The set-up of the port: 38400 baud, eight bits, no parity, one stop bit, FIFO on.
abbrev pub setup : List Outb
setup =
    record { port = 0x3F9; val = 0x00 }
    ∷ record { port = 0x3FB; val = 0x80 }
    ∷ record { port = 0x3F8; val = 0x03 }
    ∷ record { port = 0x3F9; val = 0x00 }
    ∷ record { port = 0x3FB; val = 0x03 }
    ∷ record { port = 0x3FA; val = 0xC7 }
    ∷ record { port = 0x3FC; val = 0x0B }
    ∷ []

-- What a text puts on the ports: the set-up before the first character ever, then the bytes.
pub transmitted : Bool → List ℕ → List Outb
transmitted true cs = map tx cs
transmitted false [] = []
transmitted false (c ∷ cs) = setup ++ map tx (c ∷ cs)

-- The port is set up once something is written.
pub ready_after : Bool → List ℕ → Bool
ready_after b [] = b
ready_after b (c ∷ cs) = true

pub page_write : List ℕ → Page → Page
page_write [] p = p
page_write (c ∷ cs) p = page_write cs (page_putc c p)

pub top_write : ℕ → List ℕ → Page → ℕ
top_write top [] p = top
top_write top (c ∷ cs) p = top_write (top_after top c p) cs (page_putc c p)

serial_wait_lem :
    (line_status : ℕ → ℕ) (fuel k : ℕ) (s : Console)
    → k < fuel
    → bit_and (line_status (s.reads + k)) 0x20 ≢ 0
    → (r : ℕ) × (serial_wait line_status fuel s ≡ some (record s { reads = r }))
unfolding serial_wait inb
serial_wait_lem line_status zero k s h ready = absurd (omega arith)
serial_wait_lem line_status (suc fuel) zero s h ready = (s.reads + 1, ground arith)
serial_wait_lem line_status (suc fuel) (suc k) s h ready =
    let e : s.reads + 1 + k ≡ s.reads + suc k = omega arith in
    let later = serial_wait_lem line_status fuel k (inb s) (omega arith) (rw e ready) in
    elim (Bool-cases (bit_and (line_status s.reads) 0x20 == 0)) [
      | inl busy ↦ (later.0, rw busy later.1)
      | inr free ↦ (s.reads + 1, rw free)
    ]

-- The state that `serial_init` leaves.
abbrev started : Console → Console
started s = record s { sent = s.sent ++ setup; serial_initialized = true; reads = s.reads + 1 }

serial_init_lem : (s : Console) → serial_init s ≡ started s
unfolding serial_init outb inb
serial_init_lem s = simp append_assoc

transmitted-nil : (b : Bool) → transmitted b [] ≡ []
unfolding transmitted
transmitted-nil true = refl
transmitted-nil false = refl

transmitted-cons :
    (b : Bool) (c : ℕ) (cs : List ℕ)
    → transmitted b (c ∷ []) ++ transmitted true cs ≡ transmitted b (c ∷ cs)
unfolding transmitted
transmitted-cons true c cs = refl
transmitted-cons false c cs = refl

ready_after-true : (cs : List ℕ) → ready_after true cs ≡ true
unfolding ready_after
ready_after-true [] = refl
ready_after-true (c ∷ cs) = refl

vga_putc_sent : (c : ℕ) (s : Console) → (vga_putc c s).sent ≡ s.sent
unfolding vga_putc place scroll
vga_putc_sent c s = ground arith

vga_putc_initialized :
    (c : ℕ) (s : Console) → (vga_putc c s).serial_initialized ≡ s.serial_initialized
unfolding vga_putc place scroll
vga_putc_initialized c s = ground arith

same_screen :
    {top : ℕ} {p : Page} {s : Console} {sent : List Outb} {b : Bool} {r : ℕ}
    → Shows top p s
    → Shows top p (record s { sent = sent; serial_initialized = b; reads = r })
same_screen h = record {
  cells_agree = h.cells_agree;
  blank_below = h.blank_below;
  row_agrees = h.row_agrees;
  col_agrees = h.col_agrees;
  row_in = h.row_in;
  col_in = h.col_in;
}

-- What a write of `cs` has done to `s`: it returned, the port has sent the text behind what it sent
-- before, and the screen shows the page on which the text was put.
pub record Written (top : ℕ) (p : Page) (cs : List ℕ) (s : Console) (result : Option Console)
    : Type 0 where
  pub out : Console
  pub returns : result ≡ some out
  pub initialized : out.serial_initialized ≡ ready_after s.serial_initialized cs
  pub sends : out.sent ≡ s.sent ++ transmitted s.serial_initialized cs
  pub shows : Shows (top_write top cs p) (page_write cs p) out

module _ (line_status : ℕ → ℕ) (bound : ℕ) (ready : BecomesReady line_status bound) where
  waits :
      (s : Console) → (r : ℕ) × (serial_wait line_status bound s ≡ some (record s { reads = r }))
  waits s = let r = ready s.reads in serial_wait_lem line_status bound r.0 s r.1 r.2

  serial_putc_lem :
      (c : ℕ) (s : Console)
      → (r : ℕ) × (serial_putc line_status bound c s
          ≡ some (record s {
            sent = s.sent ++ transmitted s.serial_initialized (c ∷ []);
            serial_initialized = true;
            reads = r;
          }))
  unfolding serial_putc outb transmitted tx
  serial_putc_lem c s = elim (Bool-cases s.serial_initialized) [
    | inl old ↦ let w = waits s in (w.0, ground (arith, w.1))
    | inr new ↦
        let s0 : Console = started s in
        let w = waits s0 in
        (w.0, ground (arith, w.1, serial_init_lem s, append_assoc s.sent setup (tx c ∷ [])))
  ]

  console_putc_of :
      (c : ℕ) (s : Console) {s1 : Console}
      → serial_putc line_status bound c s ≡ some s1
      → console_putc line_status bound c s ≡ some (vga_putc c s1)
  unfolding console_putc
  console_putc_of c s e = ground (arith, e)

  console_write-cons :
      (c : ℕ) (cs : List ℕ) (s : Console) {s1 out : Console}
      → console_putc line_status bound c s ≡ some s1
      → console_write line_status bound cs s1 ≡ some out
      → console_write line_status bound (c ∷ cs) s ≡ some out
  unfolding console_write
  console_write-cons c cs s e f = ground (arith, e, f)

  -- With a transmitter that becomes ready within `fuel` reads, `console_write` from a screen that
  -- shows a page returns; the port has then sent exactly the text, behind what it sent before and,
  -- the first time, behind the set-up of the port; and the screen shows the page with the text put.
  pub write-Written :
      (cs : List ℕ) {top : ℕ} {p : Page} {s : Console}
      → Shows top p s
      → Written top p cs s (console_write line_status bound cs s)
  unfolding console_write transmitted ready_after page_write top_write
  write-Written [] {top} {p} {s} h = record {
    out = s;
    returns = refl;
    initialized = refl;
    sends = rw (transmitted-nil s.serial_initialized, append-nil);
    shows = h;
  }
  write-Written (c ∷ cs) {top} {p} {s} h =
      let (r, e) = serial_putc_lem c s in
      let s1 : Console = record s {
        sent = s.sent ++ transmitted s.serial_initialized (c ∷ []);
        serial_initialized = true;
        reads = r;
      } in
      let h1 : Shows top p s1 = same_screen h in
      let rest = write-Written cs (vga_putc-Shows c h1) in
      record {
        out = rest.out;
        returns = console_write-cons c cs s (console_putc_of c s e) rest.returns;
        initialized =
            rest.initialized
            ∙ ap (λ b. ready_after b cs) (vga_putc_initialized c s1)
            ∙ ready_after-true cs;
        sends =
            rest.sends
            ∙ simp (vga_putc_sent c s1, vga_putc_initialized c s1, append_assoc)
                (rw transmitted-cons);
        shows = rest.shows;
      }
