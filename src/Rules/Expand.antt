-- ===== src/Rules/Expand.antt =====
-- `expand_rule` and `fw3_print_rules`: a rule becomes one rule of a table for each way to choose its
-- protocol, addresses, ports, hardware address and ICMP type. `exists` answers for `fw3_check_ipset`,
-- which asks the kernel.
pub mod Place
pub mod Stands
use firewall.Common.{
  ℕ, suc, Bool, true, not, ◌&&◌, ◌||◌, List, [], ◌∷◌, ◌++◌, Option, none, some, ◌==◌, ltb,
  if◌then◌else◌, get_elem?, foreach, concat_map, map, zero,
}
use firewall.Options.Flag
use firewall.Options.Table
use firewall.Options.Types.{Zone, Protocol}
use firewall.Options.Types.Config.{Rule, State, Ipset, CtHelper}
use firewall.Utils.Flags.{is_family}
use firewall.Utils.Flags
use firewall.Iptables.{Handle, Trace}
use firewall.Rules.Print.{Match, print_rule}

-- The table that the target of a rule belongs to is not the open one.
unfoldable pub is_elsewhere : Handle → ℕ → Bool
is_elsewhere h t =
    t == Flag.notrack && not (h.table == Table.raw)
    || t == Flag.helper && not (h.table == Table.raw)
    || t == Flag.mark && not (h.table == Table.mangle)
    || t == Flag.dscp && not (h.table == Table.mangle)
    || ltb t Flag.notrack && not (h.table == Table.filter)

-- `fw3_is_family(zone, family)` for a pointer that may be NULL; likewise for a helper.
abbrev pub zone_is_family : List Zone → Option ℕ → ℕ → Bool
zone_is_family zones none family = true
zone_is_family zones (some i) family = elim (get_elem? zones i) [
  | none ↦ true
  | some z ↦ is_family z.family family
]

abbrev pub helper_is_family : List CtHelper → Option ℕ → ℕ → Bool
helper_is_family helpers none family = true
helper_is_family helpers (some i) family = elim (get_elem? helpers i) [
  | none ↦ true
  | some h ↦ is_family h.family family
]

-- The set of a rule is of the family and in the kernel; true for a rule with no set.
unfoldable pub ipset_ready : (Ipset → Bool) → List Ipset → Option ℕ → ℕ → Bool
ipset_ready exists sets none family = true
ipset_ready exists sets (some i) family = elim (get_elem? sets i) [
  | none ↦ true
  | some s ↦ is_family s.family family && exists s
]

-- `set(rule->ipset.ptr->flags, handle->family, handle->family)`.
unfoldable pub mark_ipset : ℕ → Option ℕ → List Ipset → List Ipset
mark_ipset family p [] = []
mark_ipset family none (s ∷ sets) = s ∷ sets
mark_ipset family (some zero) (s ∷ sets) =
    record s { flags = Flags.set s.flags family family } ∷ sets
mark_ipset family (some (suc i)) (s ∷ sets) = s ∷ mark_ipset family (some i) sets

-- ICMP has types in place of ports.
abbrev is_icmp : Protocol → Bool
is_icmp proto = proto.protocol == 1 || proto.protocol == 58

-- What the loops bind, in their order.
unfoldable pub matches_of : Rule → Protocol → List Match
matches_of rule proto =
    let sports = if is_icmp proto then [] else rule.port_src in
    let dports = if is_icmp proto then [] else rule.port_dest in
    let icmptypes = if is_icmp proto then rule.icmp_type else [] in
    concat_map
      (λ sip.
        concat_map
          (λ dip.
            concat_map
              (λ sport.
                concat_map
                  (λ dport.
                    concat_map
                      (λ hw.
                        map
                          (λ icmp. record {
                            proto = proto;
                            sip = sip;
                            dip = dip;
                            sport = sport;
                            dport = dport;
                            hw = hw;
                            icmp = icmp;
                          })
                          (foreach icmptypes))
                      (foreach rule.mac_src))
                  (foreach dports))
              (foreach sports))
          (foreach rule.ip_dest))
      (foreach rule.ip_src)

-- The tests before the set is marked.
unfoldable pub is_printed : Handle → (Ipset → Bool) → State → Rule → Bool
unfolding is_elsewhere ipset_ready
is_printed h exists state rule =
    is_family rule.family h.family
    && not (is_elsewhere h rule.target)
    && zone_is_family state.zones rule.src_zone h.family
    && zone_is_family state.zones rule.dest_zone h.family
    && ipset_ready exists state.ipsets rule.ipset.ptr h.family

unfoldable pub expand_rule : Handle → (Ipset → Bool) → State → Rule → ℕ → State × Trace
unfolding is_printed mark_ipset matches_of
expand_rule h exists state rule num =
    let marked = record state { ipsets = mark_ipset h.family rule.ipset.ptr state.ipsets } in
    if not (is_printed h exists state rule)
    then (state, [])
    else if not (helper_is_family state.cthelpers rule.helper.ptr h.family)
        || not (helper_is_family state.cthelpers rule.set_helper.ptr h.family)
    then (marked, [])
    else (
      marked,
      concat_map (λ proto. concat_map (print_rule h marked rule num) (matches_of rule proto))
          rule.proto,
    )

-- The rules in order, numbered from `num`.
unfoldable pub expand_rules : Handle → (Ipset → Bool) → State → List Rule → ℕ → State × Trace
unfolding expand_rule
expand_rules h exists state [] num = (state, [])
expand_rules h exists state (rule ∷ rules) num =
    let (state', t) = expand_rule h exists state rule num in
    let (last, ts) = expand_rules h exists state' rules (suc num) in (last, t ++ ts)

-- `fw3_print_rules`.
unfoldable pub print_rules : Handle → (Ipset → Bool) → State → State × Trace
unfolding expand_rules
print_rules h exists state = expand_rules h exists state state.rules 0
