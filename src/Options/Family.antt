-- ===== src/Options/Family.antt =====
-- `enum fw3_family` of options.h. `v4` and `v6` are bit positions of a flag word too.
use Prim.Native.Nat.{ℕ}

abbrev pub any : ℕ
any = 0

abbrev pub v4 : ℕ
v4 = 4

abbrev pub v6 : ℕ
v6 = 5
