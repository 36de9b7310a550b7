-- ===== src/Prelude/Int.antt =====
-- Go's signed integers: `int` without its bounds, and the conversion to `int32`.
use Prim.Native.Nat.{ℕ, suc, ◌+◌, ◌-◌, ◌*◌, ◌/◌, ◌%◌, ◌^◌, ◌≤◌, ◌<◌}
use mathlib.Core.Path.{◌≡◌}
use mathlib.Core.Bool.{Bool, true, ◌&&◌}
use mathlib.Core.Logic.{◌≢◌}
use native.Mathlib.Omega.{arith}
use native.Mathlib.Decide.{ℕ_discrete}
use wfm.Prelude.Tests.{Eq, leb, ltb, if◌then◌else◌}

-- `negsuc n` is -(n + 1).
pub data ℤ : Type 0 where
  pos : ℕ → ℤ
  negsuc : ℕ → ℤ

abbrev pub pos_part : ℤ → ℕ
pos_part (pos n) = n
pos_part (negsuc n) = 0

abbrev pub neg_part : ℤ → ℕ
neg_part (pos n) = 0
neg_part (negsuc n) = suc n

infix 50 ◌≤ℤ◌
abbrev pub ◌≤ℤ◌ : ℤ → ℤ → Type 0
a ≤ℤ b = pos_part a + neg_part b ≤ pos_part b + neg_part a

abbrev pub ltbℤ : ℤ → ℤ → Bool
ltbℤ a b = ltb (pos_part a + neg_part b) (pos_part b + neg_part a)

-- The residue modulo 2 ^ 32.
abbrev residue : ℤ → ℕ
residue (pos n) = n % 2 ^ 32
residue (negsuc n) = 2 ^ 32 - 1 - n % 2 ^ 32

-- The residue read as two's complement.
abbrev signed32 : ℕ → ℤ
signed32 r = if ltb r (2 ^ 31) then pos r else negsuc (2 ^ 32 - 1 - r)

-- `uint32(v)`
unfoldable pub to_uint32 : ℤ → ℕ
to_uint32 v = residue v

-- `int32(v)`
unfoldable pub to_int32 : ℤ → ℤ
to_int32 v = signed32 (residue v)

abbrev pub FitsInt32 : ℤ → Type 0
FitsInt32 v = (pos_part v < 2 ^ 31) × (neg_part v ≤ 2 ^ 31)

pub to_int32_fits : (v : ℤ) → FitsInt32 v → to_int32 v ≡ v
unfolding to_int32
to_int32_fits (pos n) h = ground arith
to_int32_fits (negsuc n) h = ground arith

ℤ-discrete : Discrete ℤ
ℤ-discrete = hlevel ℕ_discrete

instance unfoldable pub int_eq : Eq ℤ
unfolding ℤ-discrete
int_eq = record { dec = ℤ-discrete }

pub ltbℤ-ne : (a b : ℤ) → ltbℤ a b ≡ true → a ≢ b
ltbℤ-ne a b h e = ground arith

-- The integer `-n`.
abbrev pub negated : ℕ → ℤ
negated n = if leb n 0 then pos 0 else negsuc (n - 1)

-- The range of `int`, of 64 bits.
abbrev pub FitsInt64 : ℤ → Type 0
FitsInt64 v = (pos_part v < 2 ^ 63) × (neg_part v ≤ 2 ^ 63)

abbrev pub fits_int64 : ℤ → Bool
fits_int64 v = ltb (pos_part v) (2 ^ 63) && leb (neg_part v) (2 ^ 63)

-- The nearest value in the range of `int`.
unfoldable pub clamp_int64 : ℤ → ℤ
clamp_int64 v =
    if leb (2 ^ 63) (pos_part v)
    then pos (2 ^ 63 - 1)
    else if ltb (2 ^ 63) (neg_part v)
    then negsuc (2 ^ 63 - 1)
    else v

infixl 60 ◌+ℤ◌
abbrev pub ◌+ℤ◌ : ℤ → ℤ → ℤ
pos a +ℤ pos b = pos (a + b)
pos a +ℤ negsuc b = if ltb b a then pos (a - b - 1) else negsuc (b - a)
negsuc a +ℤ pos b = if ltb a b then pos (b - a - 1) else negsuc (a - b)
negsuc a +ℤ negsuc b = negsuc (suc (a + b))

infixl 70 ◌*ℤ◌
abbrev pub ◌*ℤ◌ : ℤ → ℤ → ℤ
pos a *ℤ pos b = pos (a * b)
pos a *ℤ negsuc b = negated (a * suc b)
negsuc a *ℤ pos b = negated (suc a * b)
negsuc a *ℤ negsuc b = pos (suc a * suc b)

-- Go's division by a positive number, which truncates.
abbrev pub quot : ℤ → ℕ → ℤ
quot (pos n) k = pos (n / k)
quot (negsuc n) k = negated (suc n / k)
