-- ===== src/Common/Fallible.antt =====
-- Code that may panic, or that a bound on its loops may stop.

use mathlib.Core.Path.{◌≡◌, refl}
use mathlib.Core.Bool.{Bool, true, false}
use nebula_os.Common.Tests.{if◌then◌else◌}

-- `timeout` is a model's loop out of fuel; the theorems show that it does not happen.
pub data Outcome {ℓ} (E : Type 0) (A : Type ℓ) : Type ℓ where
  ok : A → Outcome E A
  panic : E → Outcome E A
  timeout : Outcome E A

infixl 5 ◌>>=◌
abbrev pub ◌>>=◌ {ℓ κ} :
    {E : Type 0} {A : Type ℓ} {B : Type κ} → Outcome E A → (A → Outcome E B) → Outcome E B
ok a >>= f = f a
panic e >>= f = panic e
timeout >>= f = timeout

-- Each normal return satisfies `P`, and the loops end; a panic is allowed.
abbrev pub Ensures {ℓ} : {E : Type 0} {A : Type ℓ} → (A → Type 0) → Outcome E A → Type 0
Ensures P (ok a) = P a
Ensures P (panic e) = Unit
Ensures P timeout = ⊥

pub Ensures-bind {ℓ κ} :
    {E : Type 0} {A : Type ℓ} {B : Type κ} (P : A → Type 0) (Q : B → Type 0) (m : Outcome E A)
    (f : A → Outcome E B)
    → Ensures P m
    → ((a : A) → P a → Ensures Q (f a))
    → Ensures Q (m >>= f)
Ensures-bind P Q (ok a) f h k = k a h
Ensures-bind P Q (panic e) f h k = tt
Ensures-bind P Q timeout f h k = h

pub Ensures-mono {ℓ} :
    {E : Type 0} {A : Type ℓ} (P Q : A → Type 0) (m : Outcome E A)
    → Ensures P m
    → ((a : A) → P a → Q a)
    → Ensures Q m
Ensures-mono P Q (ok a) h k = k a h
Ensures-mono P Q (panic e) h k = tt
Ensures-mono P Q timeout h k = h

pub Ensures-of {ℓ} :
    {E : Type 0} {A : Type ℓ} (P : A → Type 0) (m : Outcome E A)
    → ((a : A) → m ≡ ok a → P a)
    → ¬ (m ≡ timeout)
    → Ensures P m
Ensures-of P (ok a) h n = h a refl
Ensures-of P (panic e) h n = tt
Ensures-of P timeout h n = n refl

pub Ensures-if {ℓ} :
    {E : Type 0} {A : Type ℓ} (P : A → Type 0) (b : Bool) (m n : Outcome E A)
    → (b ≡ true → Ensures P m)
    → (b ≡ false → Ensures P n)
    → Ensures P (if b then m else n)
Ensures-if P true m n h k = h refl
Ensures-if P false m n h k = k refl
