-- ===== src/Base/Int64.antt =====
-- Go's 64-bit integers. A uint64 is a number below 2 ^ 64; an int64 is the integer for which it
-- stands.
use Prim.Native.Nat.{ℕ, suc, ◌+◌, ◌-◌, ◌*◌, ◌%◌, ◌^◌, ◌<◌}
use mathlib.Core.Path.{◌≡◌}
use mathlib.Core.Bool.{Bool}
use native.Mathlib.Omega.{arith}
use ovote_node.Base.Tests.{ltb, leb, if◌then◌else◌}

abbrev pub two63 : ℕ
two63 = 2 ^ 63

abbrev pub two64 : ℕ
two64 = 2 ^ 64

-- `negsuc n` is -(n + 1).
pub data ℤ : Type 0 where
  pos : ℕ → ℤ
  negsuc : ℕ → ℤ

abbrev pub nat_abs : ℤ → ℕ
nat_abs (pos n) = n
nat_abs (negsuc n) = suc n

-- `int64(u)` and `int(u)` on a 64-bit machine: the same bits, read as two's complement.
unfoldable pub int64 : ℕ → ℤ
int64 u = if ltb u two63 then pos u else negsuc (two64 - u - 1)

-- `uint64(i)` for an int64.
unfoldable pub uint64 : ℤ → ℕ
uint64 (pos n) = n % two64
uint64 (negsuc n) = (two64 - (n + 1) % two64) % two64

pub uint64-int64 : (u : ℕ) → u < two64 → uint64 (int64 u) ≡ u
unfolding uint64 int64
uint64-int64 u h = ground arith

pub int64-small : (u : ℕ) → u < two63 → int64 u ≡ pos u
unfolding int64
int64-small u h = ground arith

abbrev pub leb_ℤ : ℤ → ℤ → Bool
leb_ℤ (pos a) (pos b) = leb a b
leb_ℤ (pos a) (negsuc b) = leb 1 0
leb_ℤ (negsuc a) (pos b) = leb 0 1
leb_ℤ (negsuc a) (negsuc b) = leb b a

-- Addition of uint64 values wraps.
abbrev pub add64 : ℕ → ℕ → ℕ
add64 a b = (a + b) % two64

-- Sums and products of integers, as those of math/big.
abbrev pos_part : ℤ → ℕ
pos_part (pos n) = n
pos_part (negsuc n) = 0

abbrev neg_part : ℤ → ℕ
neg_part (pos n) = 0
neg_part (negsuc n) = suc n

abbrev sub_ℕ : ℕ → ℕ → ℤ
sub_ℕ a b = if leb b a then pos (a - b) else negsuc (b - a - 1)

infixl 65 ◌+ℤ◌
infixl 70 ◌*ℤ◌
unfoldable pub ◌+ℤ◌ : ℤ → ℤ → ℤ
a +ℤ b = sub_ℕ (pos_part a + pos_part b) (neg_part a + neg_part b)

unfoldable pub ◌*ℤ◌ : ℤ → ℤ → ℤ
a *ℤ b =
    sub_ℕ (pos_part a * pos_part b + neg_part a * neg_part b)
      (pos_part a * neg_part b + neg_part a * pos_part b)

pub pos-add_mul : (a b w : ℕ) → pos a +ℤ pos b *ℤ pos w ≡ pos (a + b * w)
unfolding ◌+ℤ◌ ◌*ℤ◌
pos-add_mul a b w = ground arith
