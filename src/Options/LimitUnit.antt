-- ===== src/Options/LimitUnit.antt =====
-- `enum fw3_limit_unit` of options.h.
use Prim.Native.Nat.{ℕ}

abbrev pub second : ℕ
second = 0

abbrev pub minute : ℕ
minute = 1

abbrev pub hour : ℕ
hour = 2

abbrev pub day : ℕ
day = 3
