-- ===== src/Rules/Print.antt =====
-- The rules that `fw3_print_rules` emits: `append_chain`, `set_target`, `set_comment`, `print_rule`
-- and `expand_rule`.
pub mod Targets
pub mod Notrack
use firewall.Common.{
  ℕ, ◌+◌, Bool, true, false, not, ◌&&◌, ◌||◌, List, [], ◌∷◌, ◌++◌, Option, none, some, ◌==◌,
  is_some, if◌then◌else◌, get_elem?, foreach, concat_map, map,
}
use firewall.Common.CString.{CString, codes, streq, snprintf}
use firewall.Common.Number.{print_decimal, print_hex}
use firewall.Options.Family
use firewall.Options.Flag
use firewall.Options.Names.{flag_names, name_at}
use firewall.Options.Types.{Address, Device, IcmpType, Mac, Mark, Port, Protocol, Zone}
use firewall.Options.Types.Config.{Rule, State, CtHelper}
use firewall.Utils.Flags.{is_family}
use firewall.Iptables.{
  Handle, RuleCall, IptRule, Trace, create, target, comment, extra, addarg, limit, sport_dport,
  device, mac, icmptype, ipset, helper, time, mark, dscp, append,
}
use firewall.Helpers.{check_proto}
use firewall.Rules.Check.{need_src_action_chain}

-- `snprintf(chain, sizeof(chain), ...)` into `char chain[32]`.
abbrev chain_buf : CString → CString
chain_buf = snprintf 32

-- The chain of a MARK or DSCP rule.
unfoldable pub mangle_chain : Rule → CString
mangle_chain rule =
    if is_some rule.dest_zone && is_some rule.src_zone || rule.dest.any && rule.src.any
    then codes "FORWARD"
    else if rule.src.any && is_some rule.dest_zone
    then codes "POSTROUTING"
    else if rule.dest.any && is_some rule.src_zone
    then codes "PREROUTING"
    else if not rule.dest.set && rule.src.set
    then codes "INPUT"
    else codes "OUTPUT"

-- The chain of any other rule of the filter table: the two `if`s, the second over the first.
unfoldable pub filter_chain : Rule → CString
filter_chain rule =
    if rule.dest.set && not rule.src.set
    then (if rule.dest.any
        then codes "OUTPUT"
        else chain_buf (codes "zone_" ++ rule.dest.name ++ codes "_output"))
    else if rule.src.set
    then (if not rule.src.any
        then (if rule.dest.set
            then chain_buf (codes "zone_" ++ rule.src.name ++ codes "_forward")
            else chain_buf (codes "zone_" ++ rule.src.name ++ codes "_input"))
        else if rule.dest.set
        then codes "FORWARD"
        else codes "INPUT")
    else codes "OUTPUT"

-- `append_chain`, as the chain to which it appends.
unfoldable pub append_chain : Rule → CString
unfolding mangle_chain filter_chain
append_chain rule =
    if rule.target == Flag.notrack
    then chain_buf (codes "zone_" ++ rule.src.name ++ codes "_notrack")
    else if rule.target == Flag.helper
    then chain_buf (codes "zone_" ++ rule.src.name ++ codes "_helper")
    else if rule.target == Flag.mark || rule.target == Flag.dscp
    then mangle_chain rule
    else filter_chain rule

-- The `switch` behind the four special targets: the name of the verdict.
unfoldable pub verdict_name : ℕ → CString
verdict_name t =
    if t == Flag.accept || t == Flag.drop
    then name_at flag_names t
    else name_at flag_names Flag.reject

-- The end of `set_target`: the verdict itself, or a jump to the chain that logs and applies it.
unfoldable pub jump_name : List Zone → Rule → CString
unfolding verdict_name
jump_name zones rule =
    let name = verdict_name rule.target in
    if rule.dest.set && not rule.dest.any
    then codes "zone_" ++ rule.dest.name ++ codes "_dest_" ++ name
    else if need_src_action_chain zones rule.src_zone rule.target
    then codes "zone_" ++ rule.src.name ++ codes "_src_" ++ name
    else if not (streq name (codes "REJECT"))
    then name
    else codes "reject"

-- The helper that `rule->set_helper.ptr` points to; its name is read with no test for NULL.
abbrev helper_name : List CtHelper → Option ℕ → CString
helper_name helpers none = []
helper_name helpers (some i) = elim (get_elem? helpers i) [ none ↦ [] | some h ↦ h.name ]

-- `snprintf(buf, sizeof(buf), "0x%x/0x%x", ...)`; the buffer holds the longest output.
abbrev print_mark : Mark → CString
print_mark m = codes "0x" ++ print_hex m.mark ++ codes "/0x" ++ print_hex m.mask

unfoldable pub set_target : List Zone → List CtHelper → Rule → IptRule
unfolding jump_name
set_target zones helpers rule =
    if rule.target == Flag.mark
    then target (codes "MARK")
      ∷ addarg false (if rule.set_mark.set then codes "--set-mark" else codes "--set-xmark")
          (some (print_mark (if rule.set_mark.set then rule.set_mark else rule.set_xmark)))
      ∷ []
    else if rule.target == Flag.dscp
    then target (codes "DSCP")
      ∷ addarg false (codes "--set-dscp") (some (codes "0x" ++ print_hex rule.set_dscp.dscp))
      ∷ []
    else if rule.target == Flag.notrack
    then target (codes "CT") ∷ addarg false (codes "--notrack") none ∷ []
    else if rule.target == Flag.helper
    then target (codes "CT")
      ∷ addarg false (codes "--helper") (some (helper_name helpers rule.set_helper.ptr))
      ∷ []
    else target (jump_name zones rule) ∷ []

unfoldable pub set_comment : Option CString → ℕ → RuleCall
set_comment none num = comment (codes "@rule[" ++ print_decimal num ++ codes "]")
set_comment (some name) num = comment name

-- `fw3_is_family(p, f)` for an address that may be NULL.
abbrev pub addr_is_family : Option Address → ℕ → Bool
addr_is_family none family = true
addr_is_family (some a) family = is_family a.family family

-- `ptr && !fw3_cthelper_check_proto(ptr, proto)`.
abbrev lacks_proto : List CtHelper → Option ℕ → Protocol → Bool
lacks_proto helpers none proto = false
lacks_proto helpers (some i) proto = elim (get_elem? helpers i) [
  | none ↦ false
  | some h ↦ not (check_proto h.proto proto)
]

-- The devices of the zone that a pointer names; none for NULL.
abbrev pub zone_devices : List Zone → Option ℕ → List Device
zone_devices zones none = []
zone_devices zones (some i) = elim (get_elem? zones i) [ none ↦ [] | some z ↦ z.devices ]

-- What one turn of the loops of `expand_rule` binds.
pub record Match : Type 0 where
  pub proto : Protocol
  pub sip : Option Address
  pub dip : Option Address
  pub sport : Option Port
  pub dport : Option Port
  pub hw : Option Mac
  pub icmp : Option IcmpType

-- The tests at the head of `print_rule` by which it returns with no rule.
unfoldable pub is_skipped : Handle → State → Rule → Match → Bool
is_skipped h state rule m =
    not (addr_is_family m.sip h.family)
    || not (addr_is_family m.dip h.family)
    || m.proto.protocol == 58 && h.family == Family.v4
    || lacks_proto state.cthelpers rule.helper.ptr m.proto
    || lacks_proto state.cthelpers rule.set_helper.ptr m.proto

unfoldable pub rule_calls : State → Rule → ℕ → Match → Option Device → Option Device → IptRule
unfolding set_target set_comment
rule_calls state rule num m idev odev =
    create (some m.proto) idev odev m.sip m.dip
    ∷ sport_dport m.sport m.dport
    ∷ device rule.device rule.direction_out
    ∷ icmptype m.icmp
    ∷ mac m.hw
    ∷ ipset rule.ipset
    ∷ helper rule.helper
    ∷ limit rule.limit
    ∷ time rule.time
    ∷ mark rule.mark
    ∷ dscp rule.dscp
    ∷ (set_target state.zones state.cthelpers rule
        ++ extra rule.extra ∷ set_comment rule.name num ∷ [])

unfoldable pub print_rule : Handle → State → Rule → ℕ → Match → Trace
unfolding is_skipped rule_calls append_chain
print_rule h state rule num m =
    let named = rule.target == Flag.dscp || rule.target == Flag.mark in
    let idevices = if named then zone_devices state.zones rule.src_zone else [] in
    let odevices = if named then zone_devices state.zones rule.dest_zone else [] in
    if is_skipped h state rule m
    then []
    else concat_map
        (λ idev.
          map (λ odev. append (rule_calls state rule num m idev odev) (append_chain rule))
            (foreach odevices))
        (foreach idevices)
