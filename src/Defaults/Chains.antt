-- ===== src/Defaults/Chains.antt =====
-- The built-in chains: `fw3_print_default_chains` makes them, `fw3_flush_rules` removes them.
pub mod Pairing
use firewall.Common.{ℕ, Bool, not, ◌&&◌, List, [], ◌∷◌, ◌++◌, map, ◌==◌, if◌then◌else◌, keep}
use firewall.Common.CString.{CString, codes}
use firewall.Options.Types.{ChainSpec, Defaults}
use firewall.Options.Family
use firewall.Options.Table
use firewall.Options.Flag
use firewall.Utils.Flags.{has}
use firewall.Utils.Flags
use firewall.Iptables.{
  Handle, Trace, set_policy, flush_chain, delete_chain, delete_id_rules, create_chain, flush,
}
use firewall.Iptables.Chains.{selected}

abbrev spec : ℕ → ℕ → ℕ → CString → ChainSpec
spec f tbl def fmt = record { family = f; table = tbl; flag = def; format = fmt }

unfoldable pub default_chains : List ChainSpec
default_chains =
    spec Family.any Table.filter Flag.unspec (codes "reject")
    ∷ spec Family.any Table.filter Flag.custom_chains (codes "input_rule")
    ∷ spec Family.any Table.filter Flag.custom_chains (codes "output_rule")
    ∷ spec Family.any Table.filter Flag.custom_chains (codes "forwarding_rule")
    ∷ spec Family.any Table.filter Flag.syn_flood (codes "syn_flood")
    ∷ spec Family.v4 Table.nat Flag.custom_chains (codes "prerouting_rule")
    ∷ spec Family.v4 Table.nat Flag.custom_chains (codes "postrouting_rule")
    ∷ []

-- The macro `policy(t)`: a chain cannot have the policy REJECT.
unfoldable pub policy : ℕ → ℕ
policy t = if t == Flag.reject then Flag.drop else t

-- The calls of `fw3_ipt_set_policy` on the three chains of the filter table.
unfoldable pub set_policies : Handle → ℕ → ℕ → ℕ → Trace
set_policies h input output forward =
    if h.table == Table.filter
    then set_policy (codes "INPUT") input
      ∷ set_policy (codes "OUTPUT") output
      ∷ set_policy (codes "FORWARD") forward
      ∷ []
    else []

-- The features that are on, as bits of the open family's word.
unfoldable pub mark_features : Handle → Defaults → Defaults
mark_features h defs =
    let custom =
      if defs.custom_chains then Flags.set defs.flags h.family Flag.custom_chains else defs.flags in
    record defs {
      flags = if defs.syn_flood then Flags.set custom h.family Flag.syn_flood else custom;
    }

-- `fw3_print_default_chains`.
unfoldable pub print_default_chains : Handle → Bool → Defaults → Defaults × Trace
unfolding policy set_policies mark_features
print_default_chains h reload defs =
    if h.family == Family.v6 && defs.disable_ipv6
    then (defs, [])
    else let marked = mark_features h defs in
      (
        record marked { flags = Flags.set marked.flags h.family h.table },
        set_policies h (policy defs.policy_input) (policy defs.policy_output)
              (policy defs.policy_forward)
            ++ map (λ c. create_chain reload c.format)
                (keep (selected h marked.flags) default_chains),
      )

-- The calls of `fw3_ipt_delete_id_rules` in `fw3_flush_rules`.
abbrev pub delete_tagged : Trace
delete_tagged =
    delete_id_rules (codes "INPUT")
    ∷ delete_id_rules (codes "OUTPUT")
    ∷ delete_id_rules (codes "FORWARD")
    ∷ delete_id_rules (codes "PREROUTING")
    ∷ delete_id_rules (codes "POSTROUTING")
    ∷ []

unfoldable pub flushable : Handle → Bool → Defaults → ChainSpec → Bool
flushable h reload defs c = not (reload && c.flag == Flag.custom_chains) && selected h defs.flags c

-- `fw3_flush_rules`.
unfoldable pub flush_rules : Handle → Bool → Defaults → Defaults × Trace
unfolding set_policies flushable
flush_rules h reload defs =
    let policy = if reload then Flag.drop else Flag.accept in
    if not (has defs.flags h.family h.table) then (defs, []) else (
      record defs { flags = Flags.del defs.flags h.family h.table },
      set_policies h policy policy policy
          ++ (delete_tagged
              ++ (map (λ c. flush_chain c.format) (keep (flushable h reload defs) default_chains)
                  ++ map (λ c. delete_chain reload c.format)
                      (keep (selected h defs.flags) default_chains))),
    )

-- `fw3_flush_all`.
unfoldable pub flush_all : Handle → Trace
unfolding set_policies
flush_all h = set_policies h Flag.accept Flag.accept Flag.accept ++ flush ∷ []
