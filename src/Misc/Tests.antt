-- ===== src/Misc/Tests.antt =====
-- Runs of the number code, and instances of its theorems.
use nebula_os.Common.{
  ℕ, ◌-◌, ◌<◌, ◌≡◌, ◌^◌, min, some, refl, List, [], ◌∷◌, arith, checked_add, checked_mul,
}
use nebula_os.Misc.{
  strtoui, inet_pton, sqrt, sqrt_start, sqrt_loop, parse_resolution, resolution_from, resolution_of,
  strtoui_from, digit, digit_to_int,
}
use nebula_os.Misc.Sqrt.{IsSqrt, sqrt-IsSqrt}
use nebula_os.Misc.Strtoui.{value, digits_of, rest_of, strtoui-value}
use nebula_os.Misc.Inet.{dotted, inet_pton-dotted}

sqrt_runs : (sqrt 0 ≡ 0) × (sqrt 15 ≡ 3) × (sqrt 16 ≡ 4) × (sqrt (2 ^ 64 - 1) ≡ 2 ^ 32 - 1)
unfolding sqrt sqrt_start sqrt_loop
sqrt_runs = (refl, refl, refl, refl)

-- `640x480` has the depth 32.
resolution_runs :
    parse_resolution (b'6' ∷ b'4' ∷ b'0' ∷ b'x' ∷ b'4' ∷ b'8' ∷ b'0' ∷ []) ≡ some (640, 480, 32)
unfolding parse_resolution resolution_from resolution_of strtoui strtoui_from digit digit_to_int
    checked_add checked_mul
resolution_runs = refl

abbrev text : List ℕ
text = b'4' ∷ b'2' ∷ b'k' ∷ []

strtoui-value_example :
    ((strtoui 10 text).0 ≡ min (value 10 0 (digits_of 10 text)) (2 ^ 64 - 1))
    × (value 10 0 (digits_of 10 text) < 2 ^ 64 → (strtoui 10 text).1 ≡ rest_of 10 text)
strtoui-value_example = strtoui-value 10 text (omega arith)

inet_pton-dotted_example : inet_pton (dotted 192 168 0 17) ≡ some (192 ∷ 168 ∷ 0 ∷ 17 ∷ [])
inet_pton-dotted_example =
    inet_pton-dotted 192 168 0 17 (omega arith) (omega arith) (omega arith) (omega arith)

sqrt-IsSqrt_example : IsSqrt 1000003 (sqrt 1000003)
sqrt-IsSqrt_example = sqrt-IsSqrt 1000003 (omega arith)
