-- ===== src/Snats/Print.antt =====
-- `fw3_print_snats`: `set_target`, `print_snat` and `expand_snat`. `exists` answers for
-- `fw3_check_ipset`, which asks the kernel; `inet_ntop` is the C library's, for the IPv4 member of an
-- address.
pub mod Whole
use firewall.Common.{
  ℕ, suc, ◌+◌, ◌-◌, ◌%◌, ◌^◌, Bool, true, false, not, ◌&&◌, ◌||◌, List, [], ◌∷◌, ◌++◌, Option, none,
  some, ◌==◌, leb, length, is_some, if◌then◌else◌, foreach,
}
use firewall.Common.CString.{CString, codes, snprintf}
use firewall.Common.Number.{print_decimal}
use firewall.Options.Family
use firewall.Options.Flag
use firewall.Options.Table
use firewall.Options.Types.{Address, InetAddr, Port, Protocol}
use firewall.Options.Types.Config.{Ipset, Snat, State}
use firewall.Utils.Flags.{is_family}
use firewall.Iptables.{
  Handle, RuleCall, IptRule, Trace, create, target, comment, extra, addarg, limit, sport_dport,
  device, ipset, time, mark, append,
}
use firewall.Rules.Expand.{zone_is_family, ipset_ready, mark_ipset}

-- `inet_ntop(AF_INET, ...)`.
abbrev pub InetNtop : Type 0
InetNtop = InetAddr → CString

-- `sizeof("255.255.255.255:65535-65535")`.
abbrev pub buf_size : ℕ
buf_size = 28

unfoldable pub append_chain : Snat → CString
append_chain snat =
    if is_some snat.src_zone
    then codes "zone_" ++ snat.src.name ++ codes "_postrouting"
    else codes "POSTROUTING"

-- `:%u`, or `:%u-%u`.
unfoldable pub print_ports : Port → CString
print_ports port =
    if port.port_min == port.port_max
    then codes ":" ++ print_decimal port.port_min
    else codes ":" ++ print_decimal port.port_min ++ codes "-" ++ print_decimal port.port_max

-- The address: none if it does not fit in the buffer, by which `set_target` returns.
unfoldable pub source_addr : InetNtop → Address → Option CString
source_addr inet_ntop addr =
    let ip = inet_ntop addr.address in
    if not addr.set then some [] else if leb buf_size (length ip) then none else some ip

unfoldable pub has_ports : Snat → Option Protocol → Bool
has_ports snat none = false
has_ports snat (some proto) =
    snat.port_snat.set
    && not proto.any
    && (proto.protocol == 6 || proto.protocol == 17 || proto.protocol == 1)

-- The number of ports, as the `unsigned` that `%u` reads; `char portcntbuf[6]`.
unfoldable pub connlimit : Snat → IptRule
connlimit snat =
    addarg false (codes "-m") (some (codes "connlimit"))
    ∷ addarg false (codes "--connlimit-daddr") none
    ∷ addarg false (codes "--connlimit-upto") (
        some (
          snprintf 6 (
            print_decimal
              ((2 ^ 32 + 1 + snat.port_snat.port_max - snat.port_snat.port_min) % 2 ^ 32))))
    ∷ []

unfoldable pub to_source : InetNtop → Snat → Option Protocol → IptRule
unfolding print_ports source_addr has_ports connlimit
to_source inet_ntop snat proto = elim (source_addr inet_ntop snat.ip_snat) [
  | none ↦ []
  | some ip ↦
      (if has_ports snat proto && snat.connlimit_ports then connlimit snat else [])
      ++ target (codes "SNAT")
        ∷ addarg false (codes "--to-source") (
            some (
              ip
              ++ (if has_ports snat proto
                  then snprintf (buf_size - length ip) (print_ports snat.port_snat)
                  else [])))
        ∷ []
]

unfoldable pub set_target : InetNtop → Snat → Option Protocol → IptRule
unfolding to_source
set_target inet_ntop snat proto =
    if snat.target == Flag.snat
    then to_source inet_ntop snat proto
    else if snat.target == Flag.accept
    then target (codes "ACCEPT") ∷ []
    else target (codes "MASQUERADE") ∷ []

unfoldable pub set_comment : Option CString → ℕ → RuleCall
set_comment none num = comment (codes "@nat[" ++ print_decimal num ++ codes "]")
set_comment (some name) num = comment name

unfoldable pub snat_calls : InetNtop → Snat → ℕ → Option Protocol → IptRule
unfolding set_target set_comment
snat_calls inet_ntop snat num proto =
    create proto none none (some snat.ip_src) (some snat.ip_dest)
    ∷ sport_dport (some snat.port_src) (some snat.port_dest)
    ∷ device snat.device true
    ∷ ipset snat.ipset
    ∷ limit snat.limit
    ∷ time snat.time
    ∷ mark snat.mark
    ∷ (set_target inet_ntop snat proto ++ extra snat.extra ∷ set_comment snat.name num ∷ [])

unfoldable pub print_snat : InetNtop → Handle → Snat → ℕ → Option Protocol → Trace
unfolding snat_calls append_chain
print_snat inet_ntop h snat num proto =
    if h.table == Table.nat
    then append (snat_calls inet_ntop snat num proto) (append_chain snat) ∷ []
    else []

-- The tests before the set is marked.
unfoldable pub is_printed : (Ipset → Bool) → Handle → State → Snat → Bool
unfolding ipset_ready
is_printed exists h state snat =
    zone_is_family state.zones snat.src_zone h.family
    && is_family snat.ip_src.family h.family
    && is_family snat.ip_dest.family h.family
    && is_family snat.ip_snat.family h.family
    && ipset_ready exists state.ipsets snat.ipset.ptr h.family

unfoldable pub print_protocols : InetNtop → Handle → Snat → ℕ → List (Option Protocol) → Trace
unfolding print_snat
print_protocols inet_ntop h snat num [] = []
print_protocols inet_ntop h snat num (proto ∷ protos) =
    print_snat inet_ntop h snat num proto ++ print_protocols inet_ntop h snat num protos

unfoldable pub expand_snat : InetNtop → (Ipset → Bool) → Handle → State → Snat → ℕ → State × Trace
unfolding is_printed mark_ipset print_protocols
expand_snat inet_ntop exists h state snat num =
    let marked = record state { ipsets = mark_ipset h.family snat.ipset.ptr state.ipsets } in
    if not (is_printed exists h state snat)
    then (state, [])
    else (marked, print_protocols inet_ntop h snat num (foreach snat.proto))

-- The sections in order, numbered from `num`.
unfoldable pub expand_snats :
    InetNtop → (Ipset → Bool) → Handle → State → List Snat → ℕ → State × Trace
unfolding expand_snat
expand_snats inet_ntop exists h state [] num = (state, [])
expand_snats inet_ntop exists h state (snat ∷ snats) num =
    let (state', t) = expand_snat inet_ntop exists h state snat num in
    let (last, ts) = expand_snats inet_ntop exists h state' snats (suc num) in (last, t ++ ts)

-- `fw3_print_snats`.
unfoldable pub print_snats : InetNtop → (Ipset → Bool) → Handle → State → State × Trace
unfolding expand_snats
print_snats inet_ntop exists h state =
    if h.family == Family.v6 || not (h.table == Table.nat)
    then (state, [])
    else expand_snats inet_ntop exists h state state.snats 0
