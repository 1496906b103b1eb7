-- ===== src/Base/Words.antt =====
-- Go's int64 as a bit pattern below 2 ^ 64: sums wrap, and the order reads the sign bit.
use Prim.Native.Nat.{ℕ, ◌+◌, ◌-◌, ◌*◌, ◌%◌, ◌<◌}
use mathlib.Core.Path.{◌≡◌}
use mathlib.Core.Bool.{Bool}
use native.Mathlib.Omega.{arith}
use triagearr.Base.Tests.{ltb, leb}

-- 2 ^ 64 and 2 ^ 63.
abbrev pub modulus : ℕ
modulus = 18446744073709551616

abbrev pub half : ℕ
half = 9223372036854775808

unfoldable pub add64 : ℕ → ℕ → ℕ
add64 a b = (a + b) % modulus

unfoldable pub sub64 : ℕ → ℕ → ℕ
sub64 a b = (a + (modulus - b % modulus)) % modulus

unfoldable pub mul64 : ℕ → ℕ → ℕ
mul64 a b = (a * b) % modulus

-- a < b and a <= b of signed words: flipping the sign bit orders the patterns.
unfoldable pub lt64 : ℕ → ℕ → Bool
lt64 a b = ltb ((a + half) % modulus) ((b + half) % modulus)

unfoldable pub le64 : ℕ → ℕ → Bool
le64 a b = leb ((a + half) % modulus) ((b + half) % modulus)

-- Below 2 ^ 63 the words are the naturals.
pub add64-eq : (a b : ℕ) → a + b < modulus → add64 a b ≡ a + b
unfolding add64
add64-eq a b h = omega arith

pub le64-leb : (a b : ℕ) → a < half → b < half → le64 a b ≡ leb a b
unfolding le64
le64-leb a b h k = ground arith

pub lt64-ltb : (a b : ℕ) → a < half → b < half → lt64 a b ≡ ltb a b
unfolding lt64
lt64-ltb a b h k = ground arith
