-- ===== src/Prelude/Int.antt =====
-- Signed numbers, and Go's int64, on which a time.Duration counts nanoseconds.
use Prim.Native.Nat.{ℕ, ◌+◌, ◌-◌, ◌*◌, ◌%◌, ◌<◌}
use mathlib.Core.Path.{◌≡◌, refl}
use mathlib.Core.Bool.{Bool, true, false, not}
use native.Mathlib.Omega.{arith}
use idemio.Prelude.Tests.{ltb, leb, if◌then◌else◌}

-- `negsuc n` is -(n + 1).
pub data ℤ : Type 0 where
  pos : ℕ → ℤ
  negsuc : ℕ → ℤ

abbrev pub leb_int : ℤ → ℤ → Bool
leb_int (pos a) (pos b) = leb a b
leb_int (pos a) (negsuc b) = false
leb_int (negsuc a) (pos b) = true
leb_int (negsuc a) (negsuc b) = leb b a

abbrev pub ltb_int : ℤ → ℤ → Bool
ltb_int a b = not (leb_int b a)

infixl 6 ◌+ℤ◌
abbrev pub ◌+ℤ◌ : ℤ → ℤ → ℤ
pos a +ℤ pos b = pos (a + b)
pos a +ℤ negsuc b = if ltb b a then pos (a - b - 1) else negsuc (b - a)
negsuc a +ℤ pos b = if ltb a b then pos (b - a - 1) else negsuc (a - b)
negsuc a +ℤ negsuc b = negsuc (a + b + 1)

pub leb_int_trans : (a b c : ℤ) → leb_int a b ≡ true → leb_int b c ≡ true → leb_int a c ≡ true
leb_int_trans (pos a) (pos b) (pos c) h k = ground arith
leb_int_trans (pos a) (pos b) (negsuc c) h k = cc
leb_int_trans (pos a) (negsuc b) c h k = cc
leb_int_trans (negsuc a) b (pos c) h k = refl
leb_int_trans (negsuc a) (pos b) (negsuc c) h k = cc
leb_int_trans (negsuc a) (negsuc b) (negsuc c) h k = ground arith

abbrev pub two_64 : ℕ
two_64 = 18446744073709551616

-- the int64 with the residue m modulo 2 ^ 64
abbrev pub of_residue : ℕ → ℤ
of_residue m = if ltb m 9223372036854775808 then pos m else negsuc (two_64 - m - 1)

-- the value that an int64 keeps of an integer
abbrev pub wrap_64 : ℤ → ℤ
wrap_64 (pos n) = of_residue (n % two_64)
wrap_64 (negsuc n) = of_residue (two_64 - 1 - n % two_64)

-- a product by a natural number
abbrev pub scale : ℤ → ℕ → ℤ
scale (pos n) k = pos (n * k)
scale (negsuc n) k = if ltb 0 k then negsuc ((n + 1) * k - 1) else pos 0

-- A natural number below 2 ^ 63 is an int64.
pub wrap_64-pos : (n : ℕ) → n < 9223372036854775808 → wrap_64 (pos n) ≡ pos n
wrap_64-pos n h = ground arith
