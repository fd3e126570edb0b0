-- ===== src/Options/RejectCode.antt =====
-- `enum fw3_reject_code` of options.h.
use Prim.Native.Nat.{ℕ}

abbrev pub tcp_reset : ℕ
tcp_reset = 0

abbrev pub port_unreach : ℕ
port_unreach = 1

abbrev pub adm_prohibited : ℕ
adm_prohibited = 2
