-- ===== src/Defaults/Rules.antt =====
-- The rules of `fw3_print_default_head_rules` and `fw3_print_default_tail_rules`.
pub mod Verdicts
use firewall.Common.{
  ℕ, true, false, not, List, [], ◌∷◌, ◌++◌, Option, none, some, ◌==◌, if◌then◌else◌, concat_map,
  map,
}
use firewall.Common.CString.{CString, codes}
use firewall.Options.Family
use firewall.Options.Flag
use firewall.Options.RejectCode
use firewall.Options.Table
use firewall.Options.Types.{Defaults, Device, Protocol}
use firewall.Iptables.{
  Handle, IptCall, Trace, create, target, comment, extra, addarg, limit, append,
}

-- `get_reject_code`.
unfoldable pub get_reject_code : ℕ → ℕ → CString
get_reject_code family code =
    if code == RejectCode.tcp_reset
    then codes "tcp-reset"
    else if code == RejectCode.port_unreach
    then codes "port-unreach"
    else if code == RejectCode.adm_prohibited
    then (if family == Family.v6 then codes "adm-prohibited" else codes "admin-prohib")
    else codes "unknown"

abbrev pub lodev : Device
lodev = record { set = true; any = false; invert = false; name = codes "lo"; network = [] }

abbrev pub tcp : Protocol
tcp = record { any = false; invert = false; protocol = 6 }

-- The pairs of the array `chains`: the chain, and the word for it.
abbrev pub chains : List (CString × CString)
chains =
    (codes "INPUT", codes "input")
    ∷ (codes "OUTPUT", codes "output")
    ∷ (codes "FORWARD", codes "forwarding")
    ∷ []

abbrev ctstate : CString → Option CString
ctstate s = some (codes "-m conntrack --ctstate " ++ s)

unfoldable pub custom_jump : CString × CString → IptCall
custom_jump (chain, label) =
    append
      (comment (codes "Custom " ++ label ++ codes " rule chain")
        ∷ target (label ++ codes "_rule")
        ∷ [])
      chain

unfoldable pub conntrack_rules : Defaults → CString × CString → Trace
conntrack_rules defs (chain, label) =
    append (extra (ctstate (codes "RELATED,ESTABLISHED")) ∷ target (codes "ACCEPT") ∷ []) chain
    ∷ (if defs.drop_invalid
        then append (extra (ctstate (codes "INVALID")) ∷ target (codes "DROP") ∷ []) chain ∷ []
        else [])

unfoldable pub offload_rule : Defaults → Trace
offload_rule defs =
    if defs.flow_offloading
    then append
        (comment (codes "Traffic offloading")
          ∷ extra (ctstate (codes "RELATED,ESTABLISHED"))
          ∷ target (codes "FLOWOFFLOAD")
          ∷ (if defs.flow_offloading_hw then addarg false (codes "--hw") none ∷ [] else []))
        (codes "FORWARD")
      ∷ []
    else []

unfoldable pub syn_flood_rules : Defaults → Trace
syn_flood_rules defs =
    if defs.syn_flood
    then append
        (create none none none none none ∷ limit defs.syn_flood_rate ∷ target (codes "RETURN") ∷ [])
        (codes "syn_flood")
      ∷ append (target (codes "DROP") ∷ []) (codes "syn_flood")
      ∷ append
          (create (some tcp) none none none none
            ∷ extra (some (codes "--syn"))
            ∷ target (codes "syn_flood")
            ∷ [])
          (codes "INPUT")
      ∷ []
    else []

unfoldable pub reject_rules : Handle → Defaults → Trace
unfolding get_reject_code
reject_rules h defs =
    append
      (create (some tcp) none none none none
        ∷ target (codes "REJECT")
        ∷ addarg false (codes "--reject-with")
            (some (get_reject_code h.family defs.tcp_reject_code))
        ∷ [])
      (codes "reject")
    ∷ append
        (target (codes "REJECT")
          ∷ addarg false (codes "--reject-with")
              (some (get_reject_code h.family defs.any_reject_code))
          ∷ [])
        (codes "reject")
    ∷ []

unfoldable pub filter_head_rules : Handle → Defaults → Trace
unfolding custom_jump conntrack_rules offload_rule syn_flood_rules reject_rules
filter_head_rules h defs =
    append (create none (some lodev) none none none ∷ target (codes "ACCEPT") ∷ []) (codes "INPUT")
    ∷ append (create none none (some lodev) none none ∷ target (codes "ACCEPT") ∷ [])
        (codes "OUTPUT")
    ∷ ((if defs.custom_chains then map custom_jump chains else [])
        ++ (offload_rule defs
            ++ (concat_map (conntrack_rules defs) chains
                ++ (syn_flood_rules defs ++ reject_rules h defs))))

unfoldable pub nat_head_rules : Defaults → Trace
nat_head_rules defs =
    if defs.custom_chains
    then append
        (comment (codes "Custom prerouting rule chain") ∷ target (codes "prerouting_rule") ∷ [])
        (codes "PREROUTING")
      ∷ append
          (comment (codes "Custom postrouting rule chain") ∷ target (codes "postrouting_rule") ∷ [])
          (codes "POSTROUTING")
      ∷ []
    else []

-- `fw3_print_default_head_rules`.
unfoldable pub print_default_head_rules : Handle → Defaults → Trace
unfolding filter_head_rules nat_head_rules
print_default_head_rules h defs =
    if h.table == Table.filter
    then filter_head_rules h defs
    else if h.table == Table.nat
    then nat_head_rules defs
    else []

-- One of the three tests of `fw3_print_default_tail_rules`; `fw3_ipt_rule_new` allocates by
-- `fw3_alloc`, which does not return NULL.
unfoldable pub tail_rule : ℕ → CString → Trace
tail_rule pol chain =
    if pol == Flag.reject then append (target (codes "reject") ∷ []) chain ∷ [] else []

-- `fw3_print_default_tail_rules`.
unfoldable pub print_default_tail_rules : Handle → Defaults → Trace
unfolding tail_rule
print_default_tail_rules h defs =
    if not (h.table == Table.filter)
    then []
    else tail_rule defs.policy_input (codes "INPUT")
      ++ (tail_rule defs.policy_output (codes "OUTPUT")
          ++ tail_rule defs.policy_forward (codes "FORWARD"))
