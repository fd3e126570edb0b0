-- ===== src/Zones/Rules.antt =====
-- `print_zone_rule` and `print_interface_rule`: the rules that stand in a zone's chains, and those that
-- send packets to them. `loopback` answers for `fw3_check_loopback_dev`, which asks the kernel.
pub mod Jumps
pub mod Exists
use firewall.Common.{
  Bool, false, not, ◌&&◌, ◌||◌, List, [], ◌∷◌, ◌++◌, Option, none, some, ◌==◌, is_some,
  if◌then◌else◌, foreach, concat_map,
}
use firewall.Common.Bits.{hasbit}
use firewall.Common.CString.{CString, codes, snprintf}
use firewall.Options.Flag
use firewall.Options.Table
use firewall.Options.Types.{Address, Device, Protocol, Zone}
use firewall.Options.Types.Config.{State}
use firewall.Utils.Flags.{has}
use firewall.Utils.Loopback.{check_loopback_addr}
use firewall.Iptables.{
  Handle, RuleCall, Trace, create, target, comment, extra, addarg, limit, replace,
}
use firewall.Rules.Print.{addr_is_family}
use firewall.Zones.Verdicts.{log_mangle, incoming, outgoing, zone_chain, log_calls, verdict_rules}

-- The loop over `chains`: the built-in chains jump to the zone's.
unfoldable pub entry_rules : Zone → Option Device → Option Address → Trace
entry_rules zone dev sub =
    replace
      (incoming dev sub ∷ target (zone_chain zone (codes "_input")) ∷ extra zone.extra_src ∷ [])
      (codes "INPUT")
    ∷ replace
        (outgoing dev sub ∷ target (zone_chain zone (codes "_output")) ∷ extra zone.extra_dest ∷ [])
        (codes "OUTPUT")
    ∷ replace
        (incoming dev sub ∷ target (zone_chain zone (codes "_forward")) ∷ extra zone.extra_src ∷ [])
        (codes "FORWARD")
    ∷ []

unfoldable pub nat_rules : Handle → Zone → Option Device → Option Address → Trace
nat_rules h zone dev sub =
    (if has zone.flags h.family Flag.dnat
      then replace
          (incoming dev sub
            ∷ target (zone_chain zone (codes "_prerouting"))
            ∷ extra zone.extra_src
            ∷ [])
          (codes "PREROUTING")
        ∷ []
      else [])
    ++ (if has zone.flags h.family Flag.snat
        then replace
            (outgoing dev sub
              ∷ target (zone_chain zone (codes "_postrouting"))
              ∷ extra zone.extra_dest
              ∷ [])
            (codes "POSTROUTING")
          ∷ []
        else [])

abbrev tcp : Protocol
tcp = record { any = false; invert = false; protocol = 6 }

abbrev syn_flags : List RuleCall
syn_flags =
    addarg false (codes "--tcp-flags") (some (codes "SYN,RST"))
    ∷ addarg false (codes "SYN") none
    ∷ []

abbrev clamp : Zone → List RuleCall
clamp zone =
    comment (codes "Zone " ++ zone.name ++ codes " MTU fixing")
    ∷ target (codes "TCPMSS")
    ∷ addarg false (codes "--clamp-mss-to-pmtu") none
    ∷ []

unfoldable pub mtu_rules : Zone → Option Device → Option Address → Trace
unfolding log_calls
mtu_rules zone dev sub =
    if zone.mtu_fix
    then (if hasbit zone.log log_mangle
        then replace
            (create (some tcp) none dev none sub
              ∷ (syn_flags
                  ++ limit zone.log_limit
                    ∷ comment (codes "Zone " ++ zone.name ++ codes " MTU fix logging")
                    ∷ target (codes "LOG")
                    ∷ addarg false (codes "--log-prefix")
                        (some (snprintf 31 (codes "MSSFIX " ++ zone.name ++ codes " out: ")))
                    ∷ []))
            (codes "FORWARD")
          ∷ []
        else [])
      ++ replace (create (some tcp) none dev none sub ∷ (syn_flags ++ clamp zone)) (codes "FORWARD")
        ∷ replace (create (some tcp) dev none sub none ∷ (syn_flags ++ clamp zone))
            (codes "FORWARD")
        ∷ []
    else []

abbrev is_loopback_dev : (CString → Bool) → Option Device → Bool
is_loopback_dev loopback none = false
is_loopback_dev loopback (some dev) = not dev.any && not dev.invert && loopback dev.name

abbrev is_loopback_sub : Option Address → Bool
is_loopback_sub none = false
is_loopback_sub (some sub) = not sub.invert && check_loopback_addr sub

unfoldable pub raw_rules : (CString → Bool) → Handle → Zone → Option Device → Option Address → Trace
raw_rules loopback h zone dev sub =
    let loopback_dev = is_loopback_dev loopback dev in
    let chain =
      if loopback_dev || is_loopback_sub sub then codes "OUTPUT" else codes "PREROUTING" in
    let matched = if loopback_dev then none else dev in
    (if has zone.flags h.family Flag.helper
      then replace
          (incoming matched sub
            ∷ comment (zone.name ++ codes " CT helper assignment")
            ∷ target (zone_chain zone (codes "_helper"))
            ∷ extra zone.extra_src
            ∷ [])
          chain
        ∷ []
      else [])
    ++ (if has zone.flags h.family Flag.notrack
        then replace
            (incoming matched sub
              ∷ comment (zone.name ++ codes " CT bypass")
              ∷ target (zone_chain zone (codes "_notrack"))
              ∷ extra zone.extra_src
              ∷ [])
            chain
          ∷ []
        else [])

unfoldable pub print_interface_rule :
    (CString → Bool) → Handle → State → Zone → Option Device → Option Address → Trace
unfolding verdict_rules entry_rules nat_rules mtu_rules raw_rules
print_interface_rule loopback h state zone dev sub =
    if h.table == Table.filter
    then verdict_rules h state zone dev sub ++ entry_rules zone dev sub
    else if h.table == Table.nat
    then nat_rules h zone dev sub
    else if h.table == Table.mangle
    then mtu_rules zone dev sub
    else if h.table == Table.raw
    then raw_rules loopback h zone dev sub
    else []

-- One turn of the loops of `print_interface_rules`.
unfoldable pub interface_rules :
    (CString → Bool) → Handle → State → Zone → Option Device → Option Address → Trace
unfolding print_interface_rule
interface_rules loopback h state zone dev sub =
    if not (addr_is_family sub h.family)
    then []
    else if not (is_some dev)
        && not (is_some sub)
        && not (is_some zone.extra_src)
        && not (is_some zone.extra_dest)
    then []
    else print_interface_rule loopback h state zone dev sub

unfoldable pub print_interface_rules : (CString → Bool) → Handle → State → Zone → Trace
unfolding interface_rules
print_interface_rules loopback h state zone =
    concat_map
      (λ dev. concat_map (interface_rules loopback h state zone dev) (foreach zone.subnets))
      (foreach zone.devices)
