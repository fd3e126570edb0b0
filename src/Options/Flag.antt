-- ===== src/Options/Flag.antt =====
-- `enum fw3_flag` of options.h: policies, targets and features, as bit positions of a flag word.
use Prim.Native.Nat.{ℕ}

abbrev pub unspec : ℕ
unspec = 0

abbrev pub accept : ℕ
accept = 6

abbrev pub reject : ℕ
reject = 7

abbrev pub drop : ℕ
drop = 8

abbrev pub notrack : ℕ
notrack = 9

abbrev pub helper : ℕ
helper = 10

abbrev pub mark : ℕ
mark = 11

abbrev pub dscp : ℕ
dscp = 12

abbrev pub dnat : ℕ
dnat = 13

abbrev pub snat : ℕ
snat = 14

abbrev pub masquerade : ℕ
masquerade = 15

abbrev pub src_accept : ℕ
src_accept = 16

abbrev pub src_reject : ℕ
src_reject = 17

abbrev pub src_drop : ℕ
src_drop = 18

abbrev pub custom_chains : ℕ
custom_chains = 19

abbrev pub syn_flood : ℕ
syn_flood = 20

abbrev pub mtu_fix : ℕ
mtu_fix = 21

abbrev pub drop_invalid : ℕ
drop_invalid = 22

abbrev pub hotplug : ℕ
hotplug = 23
