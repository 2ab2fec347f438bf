-- ===== src/Misc/Inet.antt =====
-- `inet_pton` of boot/limine/limine/common/lib/libc.s2.c: addresses in dotted decimal.
use nebula_os.Common.{
  ℕ, suc, ◌+◌, ◌*◌, ◌/◌, ◌%◌, ◌<◌, ◌≡◌, refl, some, List, [], ◌∷◌, ◌++◌, ltb, if◌then◌else◌,
  checked_add, checked_mul, length, arith, ap, sym, ◌∙◌, length-append,
}
use mathlib.Core.List.{append-nil}
use nebula_os.Misc.{digit_to_int, digit, strtoui_from, strtoui, inet_from, inet_pton}

-- An octet in decimal, and the dotted address.
pub decimal : ℕ → List ℕ
decimal n =
    if ltb n 10
    then (b'0' + n) ∷ []
    else if ltb n 100
    then (b'0' + n / 10) ∷ (b'0' + n % 10) ∷ []
    else (b'0' + n / 100) ∷ (b'0' + n / 10 % 10) ∷ (b'0' + n % 10) ∷ []

pub dotted : ℕ → ℕ → ℕ → ℕ → List ℕ
dotted a b c d = decimal a ++ b'.' ∷ (decimal b ++ b'.' ∷ (decimal c ++ b'.' ∷ decimal d))

digit-decimal : (d : ℕ) → d < 10 → digit 10 (b'0' + d) ≡ some d
unfolding digit digit_to_int
digit-decimal d h = ground arith

-- One more digit of a small number.
strtoui_from-digit :
    (n d : ℕ) (s : List ℕ)
    → d < 10
    → n < 1000
    → strtoui_from 10 n ((b'0' + d) ∷ s) ≡ strtoui_from 10 (n * 10 + d) s
unfolding strtoui_from checked_add checked_mul
strtoui_from-digit n d s h k = ground (arith, digit-decimal d h)

strtoui-decimal : (n : ℕ) (s : List ℕ) → n < 256 → strtoui 10 (decimal n ++ s) ≡ strtoui_from 10 n s
unfolding strtoui decimal
strtoui-decimal n s h = ground (
  arith,
  strtoui_from-digit 0 n s,
  strtoui_from-digit 0 (n / 10) ((b'0' + n % 10) ∷ s),
  strtoui_from-digit (n / 10) (n % 10) s,
  strtoui_from-digit 0 (n / 100) ((b'0' + n / 10 % 10) ∷ (b'0' + n % 10) ∷ s),
  strtoui_from-digit (n / 100) (n / 10 % 10) ((b'0' + n % 10) ∷ s),
)

-- A number before a dot, and at the end of the text.
strtoui-dot : (n : ℕ) (s : List ℕ) → n < 256 → strtoui 10 (decimal n ++ b'.' ∷ s) ≡ (n, b'.' ∷ s)
unfolding strtoui_from digit digit_to_int
strtoui-dot n s h = strtoui-decimal n (b'.' ∷ s) h ∙ refl

strtoui-end : (n : ℕ) → n < 256 → strtoui 10 (decimal n) ≡ (n, [])
unfolding strtoui_from
strtoui-end n h = ap (strtoui 10) (sym (append-nil (decimal n))) ∙ strtoui-decimal n [] h

0-lt-decimal : (n : ℕ) → 0 < length (decimal n)
unfolding decimal
0-lt-decimal n = ground arith

inet_from-dot :
    (k n : ℕ) (s : List ℕ) (array : List ℕ)
    → n < 256
    → inet_from (suc k) s ≡ some array
    → inet_from (suc (suc k)) (decimal n ++ b'.' ∷ s) ≡ some (n ∷ array)
unfolding inet_from
inet_from-dot k n s array h e =
    ground (arith, strtoui-dot n s h, length-append (decimal n) (b'.' ∷ s), 0-lt-decimal n, e)

inet_from-end : (n : ℕ) → n < 256 → inet_from 1 (decimal n) ≡ some (n ∷ [])
unfolding inet_from
inet_from-end n h = ground (arith, strtoui-end n h, 0-lt-decimal n)

-- `inet_pton` reads every dotted address back.
pub inet_pton-dotted :
    (a b c d : ℕ)
    → a < 256
    → b < 256
    → c < 256
    → d < 256
    → inet_pton (dotted a b c d) ≡ some (a ∷ b ∷ c ∷ d ∷ [])
unfolding inet_pton dotted
inet_pton-dotted a b c d ha hb hc hd =
    inet_from-dot 2 a (decimal b ++ b'.' ∷ (decimal c ++ b'.' ∷ decimal d)) (b ∷ c ∷ d ∷ []) ha (
      inet_from-dot 1 b (decimal c ++ b'.' ∷ decimal d) (c ∷ d ∷ []) hb
        (inet_from-dot 0 c (decimal d) (d ∷ []) hc (inet_from-end d hd)))
