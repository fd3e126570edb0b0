-- ===== src/Options/IpsetType.antt =====
-- `enum fw3_ipset_type` of options.h.
use Prim.Native.Nat.{ℕ}

abbrev pub unspec : ℕ
unspec = 0

abbrev pub ip : ℕ
ip = 1

abbrev pub port : ℕ
port = 2

abbrev pub mac : ℕ
mac = 3

abbrev pub net : ℕ
net = 4

abbrev pub set : ℕ
set = 5
