-- ===== src/Iptables.antt =====
-- iptables.h: the calls by which the other components change a netfilter table. What a handler
-- does is the list of its calls, in order; a rule is the list of the calls that built it.
pub mod Chains
pub mod Silent
use firewall.Common.{ℕ, Bool, List, Option}
use firewall.Common.CString.{CString}
use firewall.Options.Types.{
  Address, CtHelperMatch, Device, Dscp, IcmpType, Limit, Mac, Mark, Port, Protocol, SetMatch,
}
use firewall.Options.Types.Config.{Time}

-- `struct fw3_ipt_handle`: the family and the table that are open.
pub record Handle : Type 0 where
  pub family : ℕ
  pub table : ℕ

-- The calls on a rule. `fw3_ipt_rule_new` starts with no call.
pub data RuleCall : Type 0 where
  create :
      Option Protocol → Option Device → Option Device → Option Address → Option Address → RuleCall
  target : CString → RuleCall
  comment : CString → RuleCall
  extra : Option CString → RuleCall
  addarg : Bool → CString → Option CString → RuleCall
  limit : Limit → RuleCall
  src_dest : Option Address → Option Address → RuleCall
  sport_dport : Option Port → Option Port → RuleCall
  device : Option CString → Bool → RuleCall
  mac : Option Mac → RuleCall
  icmptype : Option IcmpType → RuleCall
  ipset : SetMatch → RuleCall
  helper : CtHelperMatch → RuleCall
  time : Time → RuleCall
  mark : Mark → RuleCall
  dscp : Dscp → RuleCall

abbrev pub IptRule : Type 0
IptRule = List RuleCall

-- The calls on a table.
pub data IptCall : Type 0 where
  set_policy : CString → ℕ → IptCall
  flush_chain : CString → IptCall
  delete_chain : Bool → CString → IptCall
  delete_id_rules : CString → IptCall
  create_chain : Bool → CString → IptCall
  flush : IptCall
  append : IptRule → CString → IptCall
  replace : IptRule → CString → IptCall

abbrev pub Trace : Type 0
Trace = List IptCall
