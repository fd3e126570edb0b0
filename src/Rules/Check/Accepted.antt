-- ===== src/Rules/Check/Accepted.antt =====
-- What holds of a rule that `check_rule` accepts.
use firewall.Common.{ℕ, ◌≤◌, true, false, not, ◌||◌, ◌⊎◌, some, ◌==◌, null, is_some, ◌≡◌, arith}
use firewall.Options.Flag
use firewall.Options.Types.Config.{Rule, State}
use firewall.Rules.Check.{check_rule}

-- A rule that can be printed: a target among ACCEPT to DSCP, at least one protocol, no negated
-- zone, and the options that its target needs.
pub record IsPrintable (r : Rule) : Type 0 where
  pub enabled : r.enabled ≡ true
  pub src_plain : r.src.invert ≡ false
  pub dest_plain : r.dest.invert ≡ false
  pub has_proto : null r.proto ≡ false
  pub target_low : Flag.accept ≤ r.target
  pub target_high : r.target ≤ Flag.dscp
  pub raw_src : (not (r.target == Flag.notrack) || is_some r.src_zone) ≡ true
  pub helper_src : (not (r.target == Flag.helper) || is_some r.src_zone) ≡ true
  pub helper_set : (not (r.target == Flag.helper) || r.set_helper.set) ≡ true
  pub mark_set : (not (r.target == Flag.mark) || (r.set_mark.set || r.set_xmark.set)) ≡ true
  pub dscp_set : (not (r.target == Flag.dscp) || r.set_dscp.set) ≡ true

-- The targets that the option parser yields: none, or one of its table.
abbrev pub IsParsedTarget : ℕ → Type 0
IsParsedTarget t = (t ≡ Flag.unspec) ⊎ (Flag.accept ≤ t)

-- A rule that `check_rule` accepts, whose target the parser left unset or took from its table, can be
-- printed: it is enabled, its zones are not negated, it has a protocol, its target is one of ACCEPT to
-- DSCP, and it has the zone and the options that its target needs.
pub check_rule-IsPrintable :
    (state state' : State) (r r' : Rule)
    → IsParsedTarget r.target
    → check_rule state r ≡ some (state', r')
    → IsPrintable r'
unfolding check_rule
check_rule-IsPrintable state state' r r' p h = ground arith
