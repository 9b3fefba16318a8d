-- ===== src/Prelude/Int.antt =====
-- Signed integers, for the one reported value that can pass under 0.
use quotaguard.Prelude.Tests.{ceil_div, if◌then◌else◌, leb}
use quotaguard.Prelude.Texts.{Text, codes, decimal}
use mathlib.Core.List.{◌++◌}
use Prim.Native.Nat.{ℕ, zero, suc, ◌-◌, ◌/◌}

-- `negsuc n` is -(n + 1).
pub data ℤ : Type 0 where
  pos : ℕ → ℤ
  negsuc : ℕ → ℤ

unfoldable pub neg : ℕ → ℤ
neg zero = pos 0
neg (suc n) = negsuc n

-- `math.ceil((a - b) / c)`
unfoldable pub ceil_div_sub : ℕ → ℕ → ℕ → ℤ
unfolding neg ceil_div
ceil_div_sub a b c = if leb b a then pos (ceil_div (a - b) c) else neg ((b - a) / c)

-- `str(z)`
unfoldable pub show_int : ℤ → Text
unfolding decimal
show_int (pos n) = decimal n
show_int (negsuc n) = codes "-" ++ decimal (suc n)

abbrev pub pos_part : ℤ → ℕ
pos_part (pos n) = n
pos_part (negsuc n) = 0
