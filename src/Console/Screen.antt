-- ===== src/Console/Screen.antt =====
-- The screen of kernel/src/console.c against an unbounded page: `vga_putc` keeps the screen a
-- window of 25 rows onto the page that the text alone determines.
use nebula_os.Common.{
  ℕ, zero, suc, ◌+◌, ◌-◌, ◌*◌, ◌≤◌, ◌<◌, max, ◌≡◌, ◌&&◌, ◌==◌, leb, ltb, if◌then◌else◌, store,
  arith,
}
use nebula_os.Console.{Console, cell, copy_row, copy_rows, clear_row, scroll, place, vga_putc}

-- A page of lines of 80 cells that never scrolls.
pub record Page : Type 0 where
  pub cells : ℕ → ℕ
  pub row : ℕ
  pub col : ℕ

-- The effect of a character on the page: a newline and a full line both open the next line.
pub page_putc : ℕ → Page → Page
page_putc c p =
    if c == b'\n'
    then record p { row = p.row + 1; col = 0 }
    else if c == b'\r'
    then record p { col = 0 }
    else let cells = store p.cells (p.row * 80 + p.col) (cell c) in
      if p.col == 79
      then record { cells = cells; row = p.row + 1; col = 0 }
      else record { cells = cells; row = p.row; col = p.col + 1 }

-- The first line on the screen after `c`: it moves down when the cursor leaves the last row.
pub top_after : ℕ → ℕ → Page → ℕ
top_after top c p = max top ((page_putc c p).row - 24)

-- The screen of `s` shows lines `top` to `top + 24` of the page `p`, with the cursor at the same
-- place; below them the page is blank.
pub record Shows (top : ℕ) (p : Page) (s : Console) : Type 0 where
  pub cells_agree : (i : ℕ) → i < 2000 → s.vga i ≡ p.cells (i + 80 * top)
  pub blank_below : (j : ℕ) → 80 * (top + 25) ≤ j → p.cells j ≡ cell b' '
  pub row_agrees : s.cursor_row + top ≡ p.row
  pub col_agrees : s.cursor_col ≡ p.col
  pub row_in : s.cursor_row < 25
  pub col_in : s.cursor_col < 80

copy_row_lem :
    (n cc r : ℕ) (vga : ℕ → ℕ) (j : ℕ)
    → 1 ≤ r
    → copy_row n cc r vga j
      ≡ (if leb ((r - 1) * 80 + cc) j && ltb j ((r - 1) * 80 + cc + n) then vga (j + 80) else vga j)
unfolding copy_row
copy_row_lem zero cc r vga j h = ground arith
copy_row_lem (suc n) cc r vga j h =
    ground (arith, copy_row_lem n (cc + 1) r (store vga ((r - 1) * 80 + cc) (vga (r * 80 + cc))) j)

copy_rows_lem :
    (n r : ℕ) (vga : ℕ → ℕ) (j : ℕ)
    → 1 ≤ r
    → copy_rows n r vga j
      ≡ (if leb ((r - 1) * 80) j && ltb j ((r - 1 + n) * 80) then vga (j + 80) else vga j)
unfolding copy_rows
copy_rows_lem zero r vga j h = ground arith
copy_rows_lem (suc n) r vga j h = ground (
  arith,
  copy_rows_lem n (r + 1) (copy_row 80 0 r vga) j,
  copy_row_lem 80 0 r vga j,
  copy_row_lem 80 0 r vga (j + 80),
)

clear_row_lem :
    (n cc : ℕ) (vga : ℕ → ℕ) (j : ℕ)
    → clear_row n cc vga j
      ≡ (if leb (24 * 80 + cc) j && ltb j (24 * 80 + cc + n) then cell b' ' else vga j)
unfolding clear_row
clear_row_lem zero cc vga j = ground arith
clear_row_lem (suc n) cc vga j =
    ground (arith, clear_row_lem n (cc + 1) (store vga (24 * 80 + cc) (cell b' ')) j)

-- The copy and the clearing of the last line together.
scrolled_lem :
    (vga : ℕ → ℕ) (j : ℕ)
    → clear_row 80 0 (copy_rows 24 1 vga) j
      ≡ (if ltb j 1920 then vga (j + 80) else if ltb j 2000 then cell b' ' else vga j)
scrolled_lem vga j =
    ground (arith, clear_row_lem 80 0 (copy_rows 24 1 vga) j, copy_rows_lem 24 1 vga j)

-- What holds between a character's own effect and the scroll: the cursor may be one row too low.
record Placed (top : ℕ) (p : Page) (s : Console) : Type 0 where
  cells_agree : (i : ℕ) → i < 2000 → s.vga i ≡ p.cells (i + 80 * top)
  blank_below : (j : ℕ) → 80 * (top + 25) ≤ j → p.cells j ≡ cell b' '
  row_agrees : s.cursor_row + top ≡ p.row
  col_agrees : s.cursor_col ≡ p.col
  row_in : s.cursor_row ≤ 25
  col_in : s.cursor_col < 80

place-Placed :
    (c : ℕ) {top : ℕ} {p : Page} {s : Console}
    → Shows top p s
    → Placed top (page_putc c p) (place c s)
unfolding place page_putc
place-Placed c {top} {p} {s} h = record {
  cells_agree = λ i b. ground (arith, h.cells_agree i);
  blank_below = λ j b. ground (arith, h.blank_below j);
  row_agrees = ground arith;
  col_agrees = ground arith;
  row_in = ground arith;
  col_in = ground arith;
}

scroll-Shows :
    {top : ℕ} {p : Page} {s : Console} → Placed top p s → Shows (max top (p.row - 24)) p (scroll s)
unfolding scroll
scroll-Shows {top} {p} {s} h = record {
  cells_agree = λ i b. ground (
    arith,
    scrolled_lem s.vga i,
    h.cells_agree i,
    h.cells_agree (i + 80),
    h.blank_below (i + 80 * (top + 1)),
  );
  blank_below = λ j b. ground (arith, h.blank_below j);
  row_agrees = ground arith;
  col_agrees = ground arith;
  row_in = ground arith;
  col_in = ground arith;
}

-- `vga_putc` keeps the screen a window onto the page: from a screen that shows lines `top` to
-- `top + 24` of a page, with the cursor on the screen and blank lines below, it gives the window,
-- moved down if need be, onto the page with the character put.
pub vga_putc-Shows :
    (c : ℕ) {top : ℕ} {p : Page} {s : Console}
    → Shows top p s
    → Shows (top_after top c p) (page_putc c p) (vga_putc c s)
unfolding vga_putc top_after
vga_putc-Shows c h = scroll-Shows (place-Placed c h)

-- `vga_putc` with the cursor on the screen writes no cell beyond the 2000 of the text mode.
pub vga_putc_outside :
    (c : ℕ) (s : Console) (j : ℕ)
    → s.cursor_row < 25
    → s.cursor_col < 80
    → 2000 ≤ j
    → (vga_putc c s).vga j ≡ s.vga j
unfolding vga_putc place scroll
vga_putc_outside c s j r k b = ground (arith, scrolled_lem (place c s).vga j)
