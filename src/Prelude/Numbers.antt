-- ===== src/Prelude/Numbers.antt =====
-- JavaScript numbers as the program meets them: whole values, and the values that are no finite
-- number. Fractions are left out: the program only compares numbers and hands them on.
use mathlib.Core.Bool.{Bool, true, false}
use ukpc_remote_control.Prelude.Int.{ℤ, pos, ltb_ℤ, leb_ℤ, eqb_ℤ}

pub data Number : Type 0 where
  finite : ℤ → Number
  nan infinity neg_infinity : Number

-- `Number.isFinite(x)`
abbrev pub is_finite : Number → Bool
is_finite (finite n) = true
is_finite _ = false

-- `a < b`: no comparison with NaN holds
abbrev pub num_lt : Number → Number → Bool
num_lt (finite a) (finite b) = ltb_ℤ a b
num_lt (finite a) infinity = true
num_lt neg_infinity (finite b) = true
num_lt neg_infinity infinity = true
num_lt _ _ = false

-- `a <= b`
abbrev pub num_le : Number → Number → Bool
num_le (finite a) (finite b) = leb_ℤ a b
num_le (finite a) infinity = true
num_le infinity infinity = true
num_le neg_infinity nan = false
num_le neg_infinity _ = true
num_le _ _ = false

-- `a === b`
abbrev pub num_eq : Number → Number → Bool
num_eq (finite a) (finite b) = eqb_ℤ a b
num_eq infinity infinity = true
num_eq neg_infinity neg_infinity = true
num_eq _ _ = false

abbrev pub num : Prim.Native.Nat.ℕ → Number
num n = finite (pos n)
