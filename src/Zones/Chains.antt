-- ===== src/Zones/Chains.antt =====
-- The chains of a zone: `print_zone_chain` makes them in an open table, `fw3_flush_zones` empties
-- and removes them.
pub mod Pairing
pub mod AllZones
pub mod Exists
pub mod Nat
use firewall.Common.{Bool, not, ◌&&◌, List, [], ◌∷◌, ◌++◌, map, ◌==◌, if◌then◌else◌, keep}
use firewall.Common.CString.{CString, codes}
use firewall.Options.Types.{ChainSpec, Zone}
use firewall.Options.Table
use firewall.Options.Flag
use firewall.Utils.Flags.{has, is_family}
use firewall.Utils.Flags
use firewall.Iptables.{
  Handle, IptCall, Trace, target, comment, flush_chain, delete_chain, create_chain, append,
}
use firewall.Iptables.Chains.{selected}
use firewall.Zones.ChainNames.{zone_chains, format_chain}

-- One turn of the loops over `flt_chains` and `nat_chains`: `chain` and `label` are the two entries.
unfoldable pub custom_rule : CString → CString × CString → IptCall
custom_rule name (chain, label) =
    append
      (comment (codes "Custom " ++ name ++ codes " " ++ label ++ codes " rule chain")
        ∷ target (label ++ codes "_" ++ name ++ codes "_rule")
        ∷ [])
      (codes "zone_" ++ name ++ codes "_" ++ chain)

abbrev flt_chains : List (CString × CString)
flt_chains =
    (codes "input", codes "input")
    ∷ (codes "output", codes "output")
    ∷ (codes "forward", codes "forwarding")
    ∷ []

abbrev nat_chains : List (CString × CString)
nat_chains =
    (codes "prerouting", codes "prerouting") ∷ (codes "postrouting", codes "postrouting") ∷ []

unfoldable pub custom_rules : Handle → Zone → Trace
custom_rules h zone =
    if zone.custom_chains
    then (if h.table == Table.filter
        then map (custom_rule zone.name) flt_chains
        else if h.table == Table.nat
        then map (custom_rule zone.name) nat_chains
        else [])
    else []

-- The flags that `print_zone_chain` sets before it goes through the table of chains.
unfoldable pub mark_table : Handle → Zone → Zone
mark_table h zone =
    let opened = Flags.set zone.flags h.family h.table in
    record zone {
      flags = if zone.custom_chains then Flags.set opened h.family Flag.custom_chains else opened;
    }

-- The loop over `zone_chains` that creates chains.
unfoldable pub create_chains : Handle → Bool → Zone → Trace
create_chains h reload zone =
    map (λ c. create_chain reload (format_chain c.format zone.name))
      (keep (selected h zone.flags) zone_chains)

unfoldable pub print_zone_chain : Handle → Bool → Zone → Zone × Trace
unfolding mark_table create_chains
print_zone_chain h reload zone =
    if not (is_family zone.family h.family)
    then (zone, [])
    else let marked = mark_table h zone in
      (
        record marked { flags = Flags.set marked.flags h.family h.table },
        create_chains h reload marked ++ custom_rules h marked,
      )

-- `fw3_print_zone_chains`.
unfoldable pub print_zone_chains : Handle → Bool → List Zone → List Zone × Trace
print_zone_chains h reload [] = ([], [])
print_zone_chains h reload (zone ∷ zones) =
    let (zone', t) = print_zone_chain h reload zone in
    let (zones', ts) = print_zone_chains h reload zones in (zone' ∷ zones', t ++ ts)

-- The first loop's test: on a reload the user's chains are not touched.
unfoldable pub flushable : Handle → Bool → Zone → ChainSpec → Bool
flushable h reload z c = not (reload && c.flag == Flag.custom_chains) && selected h z.flags c

-- The body of the loop of `fw3_flush_zones`: flush all the rules, then remove the chains.
unfoldable pub flush_zone : Handle → Bool → Zone → Zone × Trace
unfolding flushable
flush_zone h reload z = if not (has z.flags h.family h.table) then (z, []) else (
  record z { flags = Flags.del z.flags h.family h.table },
  map (λ c. flush_chain (format_chain c.format z.name)) (keep (flushable h reload z) zone_chains)
      ++ map (λ c. delete_chain reload (format_chain c.format z.name))
          (keep (selected h z.flags) zone_chains),
)

-- `fw3_flush_zones`.
unfoldable pub flush_zones : Handle → Bool → List Zone → List Zone × Trace
flush_zones h reload [] = ([], [])
flush_zones h reload (z ∷ zones) =
    let (z', t) = flush_zone h reload z in
    let (zones', ts) = flush_zones h reload zones in (z' ∷ zones', t ++ ts)
