-- ===== src/Common/Number.antt =====
-- A JavaScript `number` as the checks of the source see it: an integer of either sign, or a value
-- for which `Number.isInteger` is false (a fraction, NaN, an infinity). A comparison is read only
-- behind that test, so its answer on `non_integer` does not matter; it is that of NaN.
use Prim.Native.Nat.{ℕ}
use mathlib.Core.Bool.{Bool, true, false}
use food_delivery_api.Common.Int.{ℤ, pos_part, ltb_ℤ, leb_ℤ}

pub data Number : Type 0 where
  int : ℤ → Number
  non_integer : Number

-- `Number.isInteger(value)`
abbrev pub is_integer : Number → Bool
is_integer (int z) = true
is_integer non_integer = false

-- `value < bound`
abbrev pub below : Number → ℤ → Bool
below (int z) bound = ltb_ℤ z bound
below non_integer bound = false

-- `value <= bound`
abbrev pub at_most : Number → ℤ → Bool
at_most (int z) bound = leb_ℤ z bound
at_most non_integer bound = false

-- `value > bound`
abbrev pub above : Number → ℤ → Bool
above (int z) bound = ltb_ℤ bound z
above non_integer bound = false

-- The natural number that a value which passed its checks is.
abbrev pub to_nat : Number → ℕ
to_nat (int z) = pos_part z
to_nat non_integer = 0
