-- ===== src/Float.antt =====
-- Go's float64, which the language of this library does not have: the operations are a parameter,
-- and the laws that a theorem uses are hypotheses that IEEE 754 meets on numbers.
use triagearr.Base.{ℕ, ◌-◌, ◌≡◌, Bool, true, false, leb, if◌then◌else◌}
use triagearr.Base.Int.{ℤ, pos, negsuc, quot, rem}
use triagearr.Types.{Time}

pub record Float : Type 1 where
  pub F : Type 0
  pub of_int : ℤ → F
  pub add : F → F → F
  pub sub : F → F → F
  pub mul : F → F → F
  pub div : F → F → F
  pub log10 : F → F
  pub lt : F → F → Bool
  pub le : F → F → Bool
  -- `int64(x)`, the conversion back, which truncates.
  pub to_int64 : F → ℕ

-- `t.Sub(u)`: a signed number of nanoseconds that saturates at the range of int64.
unfoldable pub sub_time : Time → Time → ℤ
sub_time t u =
    if leb u t
    then (if leb (t - u) 9_223_372_036_854_775_807
        then pos (t - u)
        else pos 9_223_372_036_854_775_807)
    else (if leb (u - t) 9_223_372_036_854_775_808
        then negsuc (u - t - 1)
        else negsuc 9_223_372_036_854_775_807)

module _ (fl : Float) where
  open fl use {F, of_int, add, div, lt}

  abbrev pub zero_f : F
  zero_f = of_int (pos 0)

  abbrev pub one_f : F
  one_f = of_int (pos 1)

  -- `Duration.Hours()`: the whole hours, and the fraction that is left.
  unfoldable pub hours : ℤ → F
  hours d =
      add (of_int (quot d 3_600_000_000_000))
        (div (of_int (rem d 3_600_000_000_000)) (of_int (pos 3_600_000_000_000)))

  -- `Duration.Hours() / 24.0`.
  abbrev pub days : ℤ → F
  days d = div (hours d) (of_int (pos 24))

-- The order of numbers that are not NaN.
pub record IsOrdered (fl : Float) : Type 0 where
  pub lt_irrefl : (a : fl.F) → fl.lt a a ≡ false
  pub lt_asym : (a b : fl.F) → fl.lt a b ≡ true → fl.lt b a ≡ false
  pub not_lt_trans : (a b c : fl.F) → fl.lt a b ≡ false → fl.lt b c ≡ false → fl.lt a c ≡ false

-- 0 and 1 are exact, and in order.
pub record HasUnit (fl : Float) : Type 0 where
  pub zero_lt_zero : fl.lt (fl.of_int (pos 0)) (fl.of_int (pos 0)) ≡ false
  pub one_lt_one : fl.lt (fl.of_int (pos 1)) (fl.of_int (pos 1)) ≡ false
  pub one_lt_zero : fl.lt (fl.of_int (pos 1)) (fl.of_int (pos 0)) ≡ false
