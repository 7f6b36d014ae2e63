-- ===== src/Base/Binary.antt =====
-- Byte strings: slices of them, encoding/binary, and the bytes of math/big.
use Prim.Native.Nat.{ℕ, zero, suc, ◌+◌, ◌-◌, ◌*◌, ◌/◌, ◌%◌, ◌^◌, ◌≤◌, ◌<◌}
use mathlib.Core.Path.{◌≡◌, refl, ap, ◌∙◌, subst}
use mathlib.Core.Logic.{inl, inr}
use mathlib.Core.List.{List, [], ◌∷◌, ◌++◌, reverse, reverse-reverse, reverse-cons}
use native.Mathlib.Omega.{arith}
use native.Mathlib.Nat.{pow-suc}
use ovote_node.Base.Tests.{◌==◌, if◌then◌else◌, Bool-cases}
use ovote_node.Base.Lists.{length, take, drop, length-append, drop-append, take-append}

abbrev pub Bytes : Type 0
Bytes = List ℕ

-- `d[from:to]`, in range.
abbrev pub slice : ℕ → ℕ → Bytes → Bytes
slice from to d = take (to - from) (drop from d)

-- The k low bytes of a number, the lowest first, and back.
unfoldable pub le_bytes : ℕ → ℕ → Bytes
le_bytes zero n = []
le_bytes (suc k) n = n % 256 ∷ le_bytes k (n / 256)

unfoldable pub le_value : Bytes → ℕ
le_value [] = 0
le_value (b ∷ bs) = b + 256 * le_value bs

-- The highest byte first.
unfoldable pub be_bytes : ℕ → ℕ → Bytes
unfolding le_bytes
be_bytes k n = reverse (le_bytes k n)

unfoldable pub be_value : Bytes → ℕ
unfolding le_value
be_value bs = le_value (reverse bs)

div_bound : (k n : ℕ) → n < 256 ^ suc k → n / 256 < 256 ^ k
div_bound k n h = omega (arith, pow-suc 256 k)

pub le_value-le_bytes : (k n : ℕ) → n < 256 ^ k → le_value (le_bytes k n) ≡ n
unfolding le_value le_bytes
le_value-le_bytes zero n h = omega arith
le_value-le_bytes (suc k) n h =
    let ih : le_value (le_bytes k (n / 256)) ≡ n / 256 =
      le_value-le_bytes k (n / 256) (div_bound k n h) in
    omega arith

pub length-le_bytes : (k n : ℕ) → length (le_bytes k n) ≡ k
unfolding le_bytes
length-le_bytes zero n = refl
length-le_bytes (suc k) n = ap suc (length-le_bytes k (n / 256))

pub be_value-be_bytes : (k n : ℕ) → n < 256 ^ k → be_value (be_bytes k n) ≡ n
unfolding be_value be_bytes
be_value-be_bytes k n h = rw (reverse-reverse (le_bytes k n)) (le_value-le_bytes k n h)

-- Reversal keeps the length.
length-snoc : (xs : Bytes) (x : ℕ) → length (xs ++ x ∷ []) ≡ suc (length xs)
length-snoc xs x = omega (arith, length-append xs (x ∷ []))

pub length-reverse : (xs : Bytes) → length (reverse xs) ≡ length xs
length-reverse [] = refl
length-reverse (x ∷ xs) =
    ap length (reverse-cons x xs) ∙ length-snoc (reverse xs) x ∙ ap suc (length-reverse xs)

pub length-be_bytes : (k n : ℕ) → length (be_bytes k n) ≡ k
unfolding be_bytes
length-be_bytes k n = length-reverse (le_bytes k n) ∙ length-le_bytes k n

-- `Int.Bytes` of a magnitude: big-endian, without leading zeros; the fuel bounds the digits.
unfoldable pub magnitude : ℕ → ℕ → Bytes
magnitude zero n = []
magnitude (suc fuel) n =
    let rest = n % 256 ∷ magnitude fuel (n / 256) in if n == 0 then [] else rest

-- `bi.Bytes()` and `new(big.Int).SetBytes(b)`.
unfoldable pub big_bytes : ℕ → Bytes
unfolding magnitude
big_bytes n = reverse (magnitude n n)

unfoldable pub set_bytes : Bytes → ℕ
unfolding le_value
set_bytes b = le_value (reverse b)

le_value-magnitude : (fuel n : ℕ) → n ≤ fuel → le_value (magnitude fuel n) ≡ n
unfolding le_value magnitude
le_value-magnitude zero n h = omega arith
le_value-magnitude (suc fuel) n h = elim (Bool-cases (n == 0)) [
  | inl z ↦ rw z (ground arith)
  | inr nz ↦
      let ih : le_value (magnitude fuel (n / 256)) ≡ n / 256 =
        le_value-magnitude fuel (n / 256) (ground arith) in
      rw nz (omega arith)
]

-- What was written by `Bytes` is read back by `SetBytes`: the fuel is enough.
pub set_bytes-big_bytes : (n : ℕ) → set_bytes (big_bytes n) ≡ n
unfolding set_bytes big_bytes
set_bytes-big_bytes n = rw (reverse-reverse (magnitude n n)) (le_value-magnitude n n (omega arith))

-- `slice` of a concatenation, by the length of what stands before it.
pub drop-append_length : {n : ℕ} (a b : Bytes) → length a ≡ n → drop n (a ++ b) ≡ b
drop-append_length a b h = subst (λ k. drop k (a ++ b) ≡ b) h (drop-append a b)

pub take-append_length : {n : ℕ} (a b : Bytes) → length a ≡ n → take n (a ++ b) ≡ a
take-append_length a b h = subst (λ k. take k (a ++ b) ≡ a) h (take-append a b)
