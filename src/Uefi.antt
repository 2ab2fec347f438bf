-- ===== src/Uefi.antt =====
-- uefi-bootloader/src/main.c: the UEFI application, which prints one line and returns.
-- A pointer is an `Option`; a function pointer is known by a number, and a call of it, whose result
-- the code ignores, is recorded.
use nebula_os.Common.{ℕ, Option, some, none, List, [], ◌∷◌}

-- `EFI_SIMPLE_TEXT_OUTPUT_PROTOCOL`, as far as the code reads it.
pub record TextOutput : Type 0 where
  pub output_string : Option ℕ

-- `EFI_SYSTEM_TABLE`, as far as the code reads it.
pub record SystemTable : Type 0 where
  pub con_out_protocol : Option TextOutput

-- A call of `OutputString`: the function, its `This` and the text with its NUL.
pub record Call : Type 0 where
  pub function : ℕ
  pub this : TextOutput
  pub text : List ℕ

abbrev pub msg : List ℕ
msg =
    b'N' ∷ b'e' ∷ b'b' ∷ b'u' ∷ b'l' ∷ b'a' ∷ b'O' ∷ b'S' ∷ 0x20 ∷ b'B' ∷ b'o' ∷ b'o' ∷ b't' ∷ b'i'
    ∷ b'n' ∷ b'g' ∷ b'.' ∷ b'.' ∷ b'.' ∷ 0x0D ∷ 0x0A ∷ 0 ∷ []

pub record Returned : Type 0 where
  pub status : ℕ
  pub calls : List Call

-- `EfiMain`
unfoldable pub efi_main : Option SystemTable → Returned
efi_main none = record { status = 0; calls = [] }
efi_main (some t) = elim (t.con_out_protocol) [
  | none ↦ record { status = 0; calls = [] }
  | some p ↦ elim (p.output_string) [
    | none ↦ record { status = 0; calls = [] }
    | some f ↦ record { status = 0; calls = record { function = f; this = p; text = msg } ∷ [] }
  ]
]
