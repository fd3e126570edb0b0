-- ===== src/Redirects/Expand.antt =====
-- `print_reflection`, `expand_redirect` and `fw3_print_redirects`. The rules are those of the IPv4 tables:
-- `fw3_print_redirects` makes none for IPv6.
use firewall.Common.{
  ℕ, suc, ◌-◌, ◌^◌, Bool, not, ◌&&◌, ◌||◌, List, [], ◌∷◌, ◌++◌, map, none, some, ◌==◌, null,
  is_some, if◌then◌else◌, get_elem?, foreach, concat_map, keep,
}
use firewall.Common.CString.{CString, codes}
use firewall.Options.Family
use firewall.Options.Flag
use firewall.Options.Table
use firewall.Options.Types.{Address, Device, in4, Protocol, Zone}
use firewall.Options.Types.Config.{Ipset, Redirect, State}
use firewall.Utils.Flags.{is_family}
use firewall.Iptables.{Handle, Trace, create, limit, sport_dport, time, replace}
use firewall.Zones.Lookup.{lookup_zone}
use firewall.Rules.Expand.{zone_is_family, ipset_ready, mark_ipset}
use firewall.Snats.Print.{InetNtop}
use firewall.Redirects.{masquerades}
use firewall.Redirects.Print.{set_snat_dnat, set_comment, print_redirect}

-- What one turn of the loops of the reflection binds.
pub record Turn : Type 0 where
  pub proto : Protocol
  pub ref_addr : Address
  pub int_addr : Address
  pub ext_addr : Address
  pub zone : Device

unfoldable pub print_reflection : InetNtop → Handle → Redirect → ℕ → Turn → Trace
unfolding set_snat_dnat set_comment
print_reflection inet_ntop h r num t =
    if h.table == Table.nat
    then replace
        (create (some t.proto) none none (some t.int_addr) (some t.ext_addr)
          ∷ sport_dport none (some r.port_dest)
          ∷ limit r.limit
          ∷ time r.time
          ∷ set_comment r.name num (some (codes "reflection"))
          ∷ set_snat_dnat inet_ntop Flag.dnat r.ip_redir (some r.port_redir))
        (codes "zone_" ++ t.zone.name ++ codes "_prerouting")
      ∷ replace
          (create (some t.proto) none none (some t.int_addr) (some r.ip_redir)
            ∷ sport_dport none (some r.port_redir)
            ∷ limit r.limit
            ∷ time r.time
            ∷ set_comment r.name num (some (codes "reflection"))
            ∷ set_snat_dnat inet_ntop Flag.snat t.ref_addr none)
          (codes "zone_" ++ t.zone.name ++ codes "_postrouting")
      ∷ []
    else []

-- `addr.mask.v4.s_addr = 0xFFFFFFFF`.
abbrev host : Address → Address
host a = record a { mask = in4 (2 ^ 32 - 1) }

-- FW3_REFLECTION_INTERNAL.
abbrev internal : ℕ
internal = 0

unfoldable pub reflection_zones : Redirect → List Device
reflection_zones r = if null r.reflection_zones then r.dest ∷ [] else r.reflection_zones

-- The addresses of the zone that a device of the list names; none if there is no such zone.
unfoldable pub addrs_of_name : (Zone → List Address) → List Zone → CString → List Address
addrs_of_name addrs zones name = elim (lookup_zone zones name) [
  | none ↦ []
  | some i ↦ elim (get_elem? zones i) [ none ↦ [] | some z ↦ addrs z ]
]

-- The loops behind the external address.
unfoldable pub turns : ℕ → (Zone → List Address) → List Zone → Redirect → Address → List Turn
unfolding reflection_zones addrs_of_name
turns family addrs zones r ext =
    concat_map
      (λ (rz : Device).
        concat_map
          (λ (int : Address).
            map
              (λ (proto : Protocol). record {
                proto = proto;
                ref_addr = host (if r.reflection_src == internal then int else ext);
                int_addr = int;
                ext_addr = host ext;
                zone = rz;
              })
              r.proto)
          (keep (λ a. is_family a.family family) (addrs_of_name addrs zones rz.name)))
      (reflection_zones r)

-- The external addresses: the section's own, or else those of the source.
unfoldable pub external_addrs : (Zone → List Address) → List Zone → Redirect → List Address
external_addrs addrs zones r = if r.ip_dest.set then r.ip_dest ∷ [] else elim r.src_zone [
  | none ↦ []
  | some i ↦ elim (get_elem? zones i) [ none ↦ [] | some z ↦ addrs z ]
]

-- The two tests before the reflection rules.
unfoldable pub is_reflected : List Zone → Redirect → Bool
is_reflected zones r =
    r.target == Flag.dnat
    && r.reflection
    && not r.local
    && (is_some r.dest_zone && masquerades zones r.src_zone)

unfoldable pub reflection_rules :
    InetNtop → (Zone → List Address) → Handle → State → Redirect → ℕ → Trace
unfolding print_reflection turns external_addrs is_reflected
reflection_rules inet_ntop addrs h state r num =
    if is_reflected state.zones r
    then concat_map
        (λ ext.
          concat_map (print_reflection inet_ntop h r num) (turns h.family addrs state.zones r ext))
        (keep (λ a. is_family a.family h.family) (external_addrs addrs state.zones r))
    else []

-- The tests before the set is marked.
unfoldable pub is_printed : (Ipset → Bool) → Handle → State → Redirect → Bool
unfolding ipset_ready
is_printed exists h state r =
    zone_is_family state.zones r.src_zone h.family
    && zone_is_family state.zones r.dest_zone h.family
    && is_family r.ip_src.family h.family
    && is_family r.ip_dest.family h.family
    && is_family r.ip_redir.family h.family
    && ipset_ready exists state.ipsets r.ipset.ptr h.family

unfoldable pub expand_redirect :
    InetNtop
    → (Zone → List Address)
    → (Ipset → Bool)
    → Handle
    → State
    → Redirect
    → ℕ
    → State × Trace
unfolding is_printed mark_ipset print_redirect reflection_rules
expand_redirect inet_ntop addrs exists h state r num =
    let marked = record state { ipsets = mark_ipset h.family r.ipset.ptr state.ipsets } in
    if not (is_printed exists h state r) then (state, []) else (
      marked,
      concat_map
            (λ proto.
              concat_map (print_redirect inet_ntop h marked r num proto) (foreach r.mac_src))
            r.proto
          ++ reflection_rules inet_ntop addrs h marked r num,
    )

-- The sections in order, numbered from `num`; in the raw table those with no helper are passed over,
-- and take no number.
unfoldable pub expand_redirects :
    InetNtop
    → (Zone → List Address)
    → (Ipset → Bool)
    → Handle
    → State
    → List Redirect
    → ℕ
    → State × Trace
unfolding expand_redirect
expand_redirects inet_ntop addrs exists h state [] num = (state, [])
expand_redirects inet_ntop addrs exists h state (r ∷ rs) num =
    let skipped = h.table == Table.raw && not (is_some r.helper.ptr) in
    let (state', t) =
      if skipped then (state, []) else expand_redirect inet_ntop addrs exists h state r num in
    let (last, ts) =
      expand_redirects inet_ntop addrs exists h state' rs (if skipped then num else suc num) in
    (last, t ++ ts)

-- `fw3_print_redirects`.
unfoldable pub print_redirects :
    InetNtop → (Zone → List Address) → (Ipset → Bool) → Handle → State → State × Trace
unfolding expand_redirects
print_redirects inet_ntop addrs exists h state =
    if h.family == Family.v6
      || not (h.table == Table.filter || h.table == Table.nat || h.table == Table.raw)
    then (state, [])
    else expand_redirects inet_ntop addrs exists h state state.redirects 0
