-- ===== src/Prelude/Float.antt =====
-- `f64` as far as the code compares it. Every finite double is a whole multiple of 2^-1074, which
-- `fin` holds (so -0.0 and 0.0 are one value, as they compare); no comparison with NaN holds.
use Prim.Native.Nat.{ℕ, ◌*◌, ◌^◌}
use mathlib.Core.Bool.{Bool, true, false}
use umbrel_apps.Prelude.Int.{ℤ, pos, leb_ℤ}

pub data F64 : Type 0 where
  nan neg_inf pos_inf : F64
  fin : ℤ → F64

-- The double of a whole number below 2^53.
unfoldable pub of_ℕ : ℕ → F64
of_ℕ n = fin (pos (n * 2 ^ 1074))

-- `a <= b`.
abbrev pub le_f64 : F64 → F64 → Bool
le_f64 nan b = false
le_f64 neg_inf nan = false
le_f64 neg_inf _ = true
le_f64 pos_inf pos_inf = true
le_f64 pos_inf _ = false
le_f64 (fin a) nan = false
le_f64 (fin a) neg_inf = false
le_f64 (fin a) pos_inf = true
le_f64 (fin a) (fin b) = leb_ℤ a b

abbrev pub is_nan : F64 → Bool
is_nan nan = true
is_nan _ = false
