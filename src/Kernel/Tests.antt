-- ===== src/Kernel/Tests.antt =====
-- An instance of the theorem on the kernel's entry.
use nebula_os.Common.{ℕ, arith}
use nebula_os.Console.Serial.{BecomesReady, Written}
use nebula_os.Kernel.{start, boot_console, boot_page, banner, start-Written}

abbrev always_ready : ℕ → ℕ
always_ready n = 0x60

always_ready-BecomesReady : BecomesReady always_ready 1
always_ready-BecomesReady n = (0, omega arith, λ h. omega arith)

abbrev no_vga : ℕ → ℕ
no_vga i = 0

start-Written_example :
    Written 0
      (boot_page no_vga)
      banner
      (boot_console no_vga)
      (start always_ready 1 (boot_console no_vga))
start-Written_example = start-Written always_ready 1 no_vga always_ready-BecomesReady
