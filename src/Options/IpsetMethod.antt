-- ===== src/Options/IpsetMethod.antt =====
-- `enum fw3_ipset_method` of options.h.
use Prim.Native.Nat.{ℕ}

abbrev pub unspec : ℕ
unspec = 0

abbrev pub bitmap : ℕ
bitmap = 1

abbrev pub hash : ℕ
hash = 2

abbrev pub set_list : ℕ
set_list = 3
