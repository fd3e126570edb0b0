-- ===== src/Zones/Rules/Jumps.antt =====
-- `fw3_print_zone_rules`, `fw3_hotplug_zones` and `fw3_resolve_zone_addresses` of zones.c. `loaded`
-- and `loopback` answer for what is asked of the kernel, `inet_pton` is the C library's.
use firewall.Common.{
  ◌^◌, ℕ, Bool, true, false, not, ◌&&◌, List, [], ◌∷◌, ◌++◌, map, Option, none, some, ◌==◌, null,
  if◌then◌else◌, keep, foreach, concat_map,
}
use firewall.Common.Bits.{hasbit, setbit, delbit}
use firewall.Common.CString.{CString, codes}
use firewall.Options.Family
use firewall.Options.Flag
use firewall.Options.Names.{flag_names, name_at}
use firewall.Options.Table
use firewall.Options.Types.{Address, Device, Zone}
use firewall.Options.Types.Config.{CtHelper, State}
use firewall.Utils.Flags.{has, is_family}
use firewall.Ubus.{InetPton, Interface, ubus_address}
use firewall.Iptables.{Handle, IptCall, Trace, target, comment, extra, src_dest, append}
use firewall.Helpers.Print.{print_cthelpers}
use firewall.Zones.Verdicts.{zone_chain, src_of, dest_of}
use firewall.Zones.Rules.{print_interface_rules}

unfoldable pub accept_dnat : Zone → CString → CString → IptCall
accept_dnat zone caption word =
    append
      (extra (some (codes "-m conntrack --ctstate DNAT"))
        ∷ comment caption
        ∷ target (name_at flag_names Flag.accept)
        ∷ [])
      (zone_chain zone word)

-- The jumps by which a packet that no rule of the zone decides meets the zone's policies.
unfoldable pub policy_jumps : Zone → Trace
unfolding src_of dest_of
policy_jumps zone =
    append (target (src_of zone zone.policy_input) ∷ []) (zone_chain zone (codes "_input"))
    ∷ append (target (dest_of zone zone.policy_forward) ∷ []) (zone_chain zone (codes "_forward"))
    ∷ append (target (dest_of zone zone.policy_output) ∷ []) (zone_chain zone (codes "_output"))
    ∷ []

unfoldable pub filter_rules : Handle → Zone → Trace
unfolding accept_dnat policy_jumps
filter_rules h zone =
    (if has zone.flags h.family Flag.dnat
      then accept_dnat zone (codes "Accept port redirections") (codes "_input")
        ∷ accept_dnat zone (codes "Accept port forwards") (codes "_forward")
        ∷ []
      else [])
    ++ policy_jumps zone

-- The addresses that `next_addr` goes through.
unfoldable pub addrs_of : ℕ → Bool → List Address → List Address
addrs_of family invert addrs =
    keep (λ a. is_family a.family family && a.set && (if invert then a.invert else not a.invert))
      addrs

-- `msrc->invert = false` while the rule is written.
abbrev plain : Address → Address
plain a = record a { invert = false }

unfoldable pub postrouting_rule : Zone → CString → Option Address → Option Address → IptCall
postrouting_rule zone verdict src dest =
    append (src_dest src dest ∷ target verdict ∷ []) (zone_chain zone (codes "_postrouting"))

-- RETURN for the negated addresses, MASQUERADE for each pair of others, or for the one or none that there
-- are.
unfoldable pub masq_calls : ℕ → Zone → Trace
unfolding addrs_of postrouting_rule
masq_calls family zone =
    map (λ a. postrouting_rule zone (codes "RETURN") (some (plain a)) none)
      (addrs_of family true zone.masq_src)
    ++ (map (λ a. postrouting_rule zone (codes "RETURN") none (some (plain a)))
          (addrs_of family true zone.masq_dest)
        ++ concat_map
            (λ src.
              map (postrouting_rule zone (codes "MASQUERADE") src)
                (foreach (addrs_of family false zone.masq_dest)))
            (foreach (addrs_of family false zone.masq_src)))

unfoldable pub masq_rules : ℕ → Zone → Trace
unfolding masq_calls
masq_rules family zone = if zone.masq && family == Family.v4 then masq_calls family zone else []

-- The `switch` over the table.
unfoldable pub table_rules : (CtHelper → Bool) → Handle → State → Zone → Trace
unfolding filter_rules masq_rules
table_rules loaded h state zone =
    if h.table == Table.filter
    then filter_rules h zone
    else if h.table == Table.nat
    then masq_rules h.family zone
    else if h.table == Table.raw
    then print_cthelpers h loaded state zone
    else []

unfoldable pub print_zone_rule :
    (CtHelper → Bool) → (CString → Bool) → Handle → State → Zone → Trace
unfolding table_rules
print_zone_rule loaded loopback h state zone =
    if not (is_family zone.family h.family)
    then []
    else table_rules loaded h state zone ++ print_interface_rules loopback h state zone

-- `fw3_print_zone_rules`.
unfoldable pub print_zone_rules : (CtHelper → Bool) → (CString → Bool) → Handle → State → Trace
unfolding print_zone_rule
print_zone_rules loaded loopback h state =
    concat_map (print_zone_rule loaded loopback h state) state.zones

-- A call of `fw3_hotplug`: the variables of the script's environment.
pub record Hotplug : Type 0 where
  pub add : Bool
  pub zone : CString
  pub interface : CString
  pub device : CString

-- The calls that get past the test on the device's network.
unfoldable pub hotplug : Bool → Zone → Device → List Hotplug
hotplug add z d =
    if null d.network
    then []
    else record { add = add; zone = z.name; interface = d.network; device = d.name } ∷ []

-- The test is `add != (flags[0] & (1 << FW3_FLAG_HOTPLUG))`: a `bool` against the masked bit, which is not
-- 1 when it is set.
unfoldable pub hotplug_zone : Bool → Zone → Zone × List Hotplug
unfolding hotplug
hotplug_zone add z =
    let masked = if hasbit z.flags.v4 Flag.hotplug then 2 ^ Flag.hotplug else 0 in
    let word = if add then setbit z.flags.v4 Flag.hotplug else delbit z.flags.v4 Flag.hotplug in
    if (if add then 1 else 0) == masked
    then (z, [])
    else (record z { flags = record z.flags { v4 = word } }, concat_map (hotplug add z) z.devices)

-- `fw3_hotplug_zones`.
unfoldable pub hotplug_zones : Bool → List Zone → List Zone × List Hotplug
unfolding hotplug_zone
hotplug_zones add [] = ([], [])
hotplug_zones add (z ∷ zones) =
    let (z', calls) = hotplug_zone add z in
    let (zones', rest) = hotplug_zones add zones in (z' ∷ zones', calls ++ rest)

-- The addresses of the zone's networks, then its subnets.
unfoldable pub zone_addresses : InetPton → List Interface → Zone → List Address
zone_addresses inet_pton interfaces zone =
    concat_map (λ (net : Device). ubus_address inet_pton interfaces net.name) zone.networks
    ++ zone.subnets

-- `fw3_resolve_zone_addresses`.
unfoldable pub resolve_zone_addresses :
    InetPton → List Interface → Zone → Option Address → List Address
unfolding zone_addresses
resolve_zone_addresses inet_pton interfaces zone none = zone_addresses inet_pton interfaces zone
resolve_zone_addresses inet_pton interfaces zone (some addr) =
    if addr.set then addr ∷ [] else zone_addresses inet_pton interfaces zone
