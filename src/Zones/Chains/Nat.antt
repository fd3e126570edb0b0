-- ===== src/Zones/Chains/Nat.antt =====
-- A chain of the IPv4 NAT table whose bit is set is among those that `print_zone_chain` creates.
use firewall.Common.{ℕ, ◌≤◌, Bool, true, ◌++◌, ◌≡◌, refl, arith, append_assoc, length}
use firewall.Common.CString.{CString, codes, elem}
use firewall.Options.Family
use firewall.Options.Flag
use firewall.Options.Table
use firewall.Options.Types.{Zone}
use firewall.Utils.Flags.{has, is_family}
use firewall.Iptables.{Handle}
use firewall.Iptables.Chains.{selected, created}
use firewall.Zones.ChainNames.{zone_chains, zone_maxnamelen}
use firewall.Zones.ChainNames.Fits.{expand}
use firewall.Zones.Chains.{print_zone_chain, mark_table}
use firewall.Zones.Chains.Exists.{entry_exists, has-mark_table_mono}

abbrev pub nat4 : Handle
nat4 = record { family = Family.v4; table = Table.nat }

-- The printing of a zone's chains in the IPv4 NAT table creates the chain.
abbrev pub CreatesNat : Bool → Zone → CString → Type 0
CreatesNat reload z name = elem name (created (print_zone_chain nat4 reload z).1) ≡ true

selected-nat4 :
    (flag : ℕ) (z : Zone) (fmt : CString)
    → has z.flags Family.v4 flag ≡ true
    → selected nat4
        (mark_table nat4 z).flags
        (record { family = Family.v4; table = Table.nat; flag = flag; format = fmt })
      ≡ true
unfolding selected is_family
selected-nat4 flag z fmt on = ground (arith, has-mark_table_mono nat4 z Family.v4 flag on)

pub postrouting_chain_exists :
    (reload : Bool) (z : Zone)
    → has z.flags Family.v4 Flag.snat ≡ true
    → is_family z.family Family.v4 ≡ true
    → length z.name ≤ zone_maxnamelen
    → CreatesNat reload z (codes "zone_" ++ z.name ++ codes "_postrouting")
unfolding zone_chains expand
postrouting_chain_exists reload z on fam short =
    let name : expand (codes "zone_?_postrouting") z.name
        ≡ codes "zone_" ++ z.name ++ codes "_postrouting" =
      simp append_assoc in
    rw (← name) (
      entry_exists nat4 reload z 9 _ refl
        (selected-nat4 Flag.snat z (codes "zone_?_postrouting") on) fam short)

pub prerouting_chain_exists :
    (reload : Bool) (z : Zone)
    → has z.flags Family.v4 Flag.dnat ≡ true
    → is_family z.family Family.v4 ≡ true
    → length z.name ≤ zone_maxnamelen
    → CreatesNat reload z (codes "zone_" ++ z.name ++ codes "_prerouting")
unfolding zone_chains expand
prerouting_chain_exists reload z on fam short =
    let name : expand (codes "zone_?_prerouting") z.name
        ≡ codes "zone_" ++ z.name ++ codes "_prerouting" =
      simp append_assoc in
    rw (← name) (
      entry_exists nat4 reload z 10 _ refl
        (selected-nat4 Flag.dnat z (codes "zone_?_prerouting") on) fam short)
