-- ===== src/Redirects/Print.antt =====
-- `fw3_print_redirects`: the rules of a redirect and of its reflection. `exists` answers for
-- `fw3_check_ipset`, which asks the kernel; `inet_ntop` is the C library's; `addrs` is
-- `fw3_resolve_zone_addresses`. A loaded redirect has a protocol, so that the loops over them pass none
-- that is NULL.
use firewall.Common.{
  ℕ, ◌-◌, false, ◌&&◌, List, [], ◌∷◌, ◌++◌, Option, none, some, ◌==◌, length, if◌then◌else◌,
  get_elem?,
}
use firewall.Common.CString.{CString, codes, snprintf}
use firewall.Common.Number.{print_decimal}
use firewall.Options.Flag
use firewall.Options.Table
use firewall.Options.Types.{Address, Mac, Port, Protocol, Zone}
use firewall.Options.Types.Config.{CtHelper, Redirect, State}
use firewall.Helpers.{check_proto}
use firewall.Iptables.{
  Handle, RuleCall, IptRule, IptCall, Trace, create, target, comment, extra, addarg, limit,
  sport_dport, mac, ipset, helper, time, mark, append,
}
use firewall.Snats.Print.{InetNtop, buf_size, print_ports, source_addr}

-- `append_chain_nat`, as the chain to which it appends.
unfoldable pub append_chain_nat : Redirect → CString
append_chain_nat r =
    if r.target == Flag.dnat
    then codes "zone_" ++ r.src.name ++ codes "_prerouting"
    else codes "zone_" ++ r.dest.name ++ codes "_postrouting"

-- `set_redirect`; `char buf[sizeof("65535-65535")]`.
unfoldable pub set_redirect : Port → IptRule
set_redirect port =
    target (codes "REDIRECT")
    ∷ (if port.set
        then addarg false (codes "--to-ports") (
            some (
              snprintf 12 (
                if port.port_min == port.port_max
                then print_decimal port.port_min
                else print_decimal port.port_min ++ codes "-" ++ print_decimal port.port_max)))
          ∷ []
        else [])

-- The text behind the address, in what is left of the buffer.
abbrev ports_text : Option Port → CString → CString
ports_text none ip = []
ports_text (some port) ip =
    if port.set then snprintf (buf_size - length ip) (print_ports port) else []

unfoldable pub set_snat_dnat : InetNtop → ℕ → Address → Option Port → IptRule
unfolding source_addr print_ports
set_snat_dnat inet_ntop t addr port = elim (source_addr inet_ntop addr) [
  | none ↦ []
  | some ip ↦
      if t == Flag.dnat
      then target (codes "DNAT")
        ∷ addarg false (codes "--to-destination") (some (ip ++ ports_text port ip))
        ∷ []
      else target (codes "SNAT")
        ∷ addarg false (codes "--to-source") (some (ip ++ ports_text port ip))
        ∷ []
]

unfoldable pub set_target_nat : InetNtop → Redirect → IptRule
unfolding set_redirect set_snat_dnat
set_target_nat inet_ntop r =
    if r.local
    then set_redirect r.port_redir
    else if r.target == Flag.dnat
    then set_snat_dnat inet_ntop r.target r.ip_redir (some r.port_redir)
    else set_snat_dnat inet_ntop r.target r.ip_dest (some r.port_dest)

-- `set_comment`: the name, or else the number, and behind it a suffix.
unfoldable pub set_comment : Option CString → ℕ → Option CString → RuleCall
set_comment (some name) num none = comment name
set_comment (some name) num (some suffix) = comment (name ++ codes " (" ++ suffix ++ codes ")")
set_comment none num none = comment (codes "@redirect[" ++ print_decimal num ++ codes "]")
set_comment none num (some suffix) =
    comment (codes "@redirect[" ++ print_decimal num ++ codes "] (" ++ suffix ++ codes ")")

unfoldable pub nat_calls : InetNtop → Redirect → ℕ → Protocol → Option Mac → IptRule
unfolding set_target_nat set_comment
nat_calls inet_ntop r num proto hw =
    let dst = if r.target == Flag.snat then r.ip_redir else r.ip_dest in
    let dpt = if r.target == Flag.snat then r.port_redir else r.port_dest in
    create (some proto) none none (some r.ip_src) (some dst)
    ∷ sport_dport (some r.port_src) (some dpt)
    ∷ mac hw
    ∷ ipset r.ipset
    ∷ helper r.helper
    ∷ limit r.limit
    ∷ time r.time
    ∷ mark r.mark
    ∷ (set_target_nat inet_ntop r ++ extra r.extra ∷ set_comment r.name num none ∷ [])

-- The helper that the redirect points to.
abbrev helper_of : List CtHelper → Redirect → Option CtHelper
helper_of helpers r = elim r.helper.ptr [ none ↦ none | some i ↦ get_elem? helpers i ]

-- `redir->_src->name`.
abbrev source_name : List Zone → Option ℕ → CString
source_name zones none = []
source_name zones (some i) = elim (get_elem? zones i) [ none ↦ [] | some z ↦ z.name ]

unfoldable pub raw_rule : State → Redirect → ℕ → Protocol → Option Mac → CtHelper → IptCall
unfolding set_comment
raw_rule state r num proto hw h =
    append
      (create (some proto) none none (some r.ip_src) (some r.ip_redir)
        ∷ sport_dport (some r.port_src) (some r.port_redir)
        ∷ mac hw
        ∷ ipset r.ipset
        ∷ limit r.limit
        ∷ time r.time
        ∷ mark r.mark
        ∷ addarg false (codes "-m") (some (codes "conntrack"))
        ∷ addarg false (codes "--ctstate") (some (codes "DNAT"))
        ∷ target (codes "CT")
        ∷ addarg false (codes "--helper") (some h.name)
        ∷ set_comment r.name num (some (codes "CT helper"))
        ∷ [])
      (codes "zone_" ++ source_name state.zones r.src_zone ++ codes "_helper")

unfoldable pub print_raw : State → Redirect → ℕ → Protocol → Option Mac → Trace
unfolding raw_rule
print_raw state r num proto hw = elim (helper_of state.cthelpers r) [
  | none ↦ []
  | some h ↦
      if r.target == Flag.dnat && check_proto h.proto proto
      then raw_rule state r num proto hw h ∷ []
      else []
]

unfoldable pub print_redirect :
    InetNtop → Handle → State → Redirect → ℕ → Protocol → Option Mac → Trace
unfolding nat_calls append_chain_nat print_raw
print_redirect inet_ntop h state r num proto hw =
    if h.table == Table.nat
    then append (nat_calls inet_ntop r num proto hw) (append_chain_nat r) ∷ []
    else if h.table == Table.raw
    then print_raw state r num proto hw
    else []
