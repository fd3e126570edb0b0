-- ===== src/Options/Table.antt =====
-- `enum fw3_table` of options.h: the netfilter tables, as bit positions of a flag word.
use Prim.Native.Nat.{ℕ}

abbrev pub filter : ℕ
filter = 0

abbrev pub nat : ℕ
nat = 1

abbrev pub mangle : ℕ
mangle = 2

abbrev pub raw : ℕ
raw = 3
