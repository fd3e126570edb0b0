-- ===== src/Rules/Expand/Place.antt =====
-- Where the rules of `expand_rule` go: one table, and one chain of it.
use firewall.Common.{
  ℕ, ◌≤◌, Bool, true, false, not, ◌||◌, [], ◌≡◌, refl, arith, ◌==◌, if◌then◌else◌, All, All-map,
  All-concat_map, Bool-cases, inl, inr,
}
use firewall.Common.CString.{CString}
use firewall.Options.Flag
use firewall.Options.Table
use firewall.Options.Types.Config.{Rule, State, Ipset}
use firewall.Iptables.{Handle, IptRule, IptCall, append}
use firewall.Rules.Print.{Match, append_chain, print_rule, is_skipped, rule_calls}
use firewall.Rules.Expand.{expand_rule, is_printed, is_elsewhere, matches_of, helper_is_family}

-- The table for a target of a rule.
abbrev pub table_of : ℕ → ℕ
table_of t =
    if t == Flag.notrack || t == Flag.helper
    then Table.raw
    else if t == Flag.mark || t == Flag.dscp
    then Table.mangle
    else Table.filter

-- A rule with a target among ACCEPT to DSCP, while another table is open than that of its target:
-- no call is made, and the state is as it was.
pub expand_rule-elsewhere :
    (h : Handle) (exists : Ipset → Bool) (state : State) (rule : Rule) (num : ℕ)
    → Flag.accept ≤ rule.target
    → rule.target ≤ Flag.dscp
    → (h.table == table_of rule.target) ≡ false
    → expand_rule h exists state rule num ≡ (state, [])
unfolding expand_rule
expand_rule-elsewhere h exists state rule num low high ne =
    let elsewhere : is_elsewhere h rule.target ≡ true = unfold is_elsewhere in ground arith in
    let off : is_printed h exists state rule ≡ false = unfold is_printed in ground arith in rw off

-- A call that appends a rule to the chain.
abbrev pub AppendsTo : CString → IptCall → Type 0
AppendsTo chain call = (r : IptRule) × (call ≡ append r chain)

print_rule-AppendsTo :
    (h : Handle) (state : State) (rule : Rule) (num : ℕ) (m : Match)
    → All (AppendsTo (append_chain rule)) (print_rule h state rule num m)
unfolding print_rule
print_rule-AppendsTo h state rule num m = elim (Bool-cases (is_skipped h state rule m)) [
  | inl skipped ↦ rw skipped tt
  | inr kept ↦ rw kept (
      All-concat_map (AppendsTo (append_chain rule)) _ _ (λ idev.
        All-map (AppendsTo (append_chain rule)) _ _
          (λ odev. (rule_calls state rule num m idev odev, refl))))
]

-- Whatever a rule matches: each call that its expansion makes appends a rule to the one chain that
-- `append_chain` names.
pub expand_rule-AppendsTo :
    (h : Handle) (exists : Ipset → Bool) (state : State) (rule : Rule) (num : ℕ)
    → All (AppendsTo (append_chain rule)) (expand_rule h exists state rule num).1
unfolding expand_rule
expand_rule-AppendsTo h exists state rule num = elim (Bool-cases (is_printed h exists state rule)) [
  | inr off ↦ rw off tt
  | inl on ↦
      let lacking =
        not (helper_is_family state.cthelpers rule.helper.ptr h.family)
        || not (helper_is_family state.cthelpers rule.set_helper.ptr h.family) in
      elim (Bool-cases lacking) [
        | inl skipped ↦ rw (on, skipped) tt
        | inr kept ↦
            rw (on, kept)
              (All-concat_map (AppendsTo (append_chain rule)) _ rule.proto (λ proto.
                All-concat_map (AppendsTo (append_chain rule)) _ (matches_of rule proto)
                  (λ m. print_rule-AppendsTo h _ rule num m)))
      ]
]
