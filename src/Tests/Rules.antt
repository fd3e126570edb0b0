-- ===== src/Tests/Rules.antt =====
-- The results on rules at concrete inputs.
use firewall.Common.{All, ℕ, ◌^◌, true, false, [], ◌∷◌, some, ◌≡◌, refl, arith, get_elem?, inl, inr}
use firewall.Common.Bits.{setbit, hasbit}
use firewall.Common.CString.{streq, elem}
use firewall.Options.Flag
use firewall.Options.Types.{Zone}
use firewall.Options.Types.Config.{Rule}
use firewall.Utils.Flags.{has, is_family}
use firewall.Utils.Flags
use firewall.Iptables.Chains.{created}
use firewall.Zones.Lookup.{lookup_zone, modify, set_both}
use firewall.Zones.Chains.{print_zone_chain}
use firewall.Zones.Chains.Exists.{Creates}
use firewall.Rules.Check.{
  check_rule, resolve_zone, resolve_ipset, resolve_cthelper, mark_zones, tcpudp,
}
use firewall.Rules.Check.Accepted.{IsPrintable, check_rule-IsPrintable}
use firewall.Rules.Load.{load_rule, load_rules}
use firewall.Rules.Load.Invariant.{AllServed, load_rules-AllServed}
use firewall.Rules.Print.{append_chain, jump_name}
use firewall.Options.Table
use firewall.Iptables.{Handle}
use firewall.Rules.Expand.{expand_rule}
use firewall.Rules.Expand.Stands.{AppendsWell, load_rules-Stands}
use firewall.Rules.Print.Targets.{jump_zone, load_rules-jump_exists}
use firewall.Rules.Print.Notrack.{raw_of, notrack_chain_missing}
use firewall.Tests.Sample.{lan, wan, drop_lan, notrack_lan, two_zones}

-- The rules as the check leaves them.
abbrev dropped : Rule
dropped = record drop_lan { src_zone = some 0; proto = tcpudp }

abbrev not_tracked : Rule
not_tracked = record notrack_lan { src_zone = some 0; proto = tcpudp }

-- The zone `lan` with the bits that a rule sets in both words.
abbrev marked : ℕ → Zone
marked t = record lan { flags = record { v4 = 2 ^ t; v6 = 2 ^ t } }

check_rule-drop_lan :
    check_rule two_zones drop_lan
    ≡ some (record two_zones { zones = marked Flag.src_drop ∷ wan ∷ [] }, dropped)
unfolding check_rule resolve_zone resolve_ipset resolve_cthelper lookup_zone mark_zones modify
    set_both Flags.set setbit streq
check_rule-drop_lan = refl

-- The rule names no destination, so the bit that is set is not that of NOTRACK.
check_rule-notrack_lan :
    check_rule two_zones notrack_lan
    ≡ some (record two_zones { zones = marked Flag.custom_chains ∷ wan ∷ [] }, not_tracked)
unfolding check_rule resolve_zone resolve_ipset resolve_cthelper lookup_zone mark_zones modify
    set_both Flags.set setbit streq
check_rule-notrack_lan = refl

check_rule-IsPrintable_example : IsPrintable dropped
check_rule-IsPrintable_example =
    check_rule-IsPrintable two_zones (record two_zones { zones = marked Flag.src_drop ∷ wan ∷ [] })
      drop_lan dropped (inr (omega arith)) check_rule-drop_lan

abbrev filter4 : Handle
filter4 = record { family = 4; table = Table.filter }

load_rules-AllServed_example :
    AllServed (load_rules two_zones ((true, drop_lan) ∷ (false, notrack_lan) ∷ []))
load_rules-AllServed_example =
    load_rules-AllServed two_zones ((true, drop_lan) ∷ (false, notrack_lan) ∷ [])

load_rules-jump_exists_example :
    Creates 4 false
      (marked Flag.src_drop)
      (jump_name (load_rules two_zones ((true, drop_lan) ∷ [])).zones dropped)
unfolding load_rules load_rule check_rule resolve_zone resolve_ipset resolve_cthelper lookup_zone
    mark_zones modify set_both Flags.set setbit streq jump_zone is_family
load_rules-jump_exists_example =
    load_rules-jump_exists two_zones ((true, drop_lan) ∷ []) 0 dropped (marked Flag.src_drop) 4
      false refl (inr (inr refl)) refl (inl refl) refl (omega arith)

load_rules-Stands_example :
    All
      (AppendsWell 4 false (load_rules two_zones ((true, drop_lan) ∷ [])).zones dropped)
      (expand_rule filter4 (λ s. true) (load_rules two_zones ((true, drop_lan) ∷ [])) dropped 0).1
unfolding load_rules load_rule check_rule resolve_zone resolve_ipset resolve_cthelper lookup_zone
    mark_zones modify set_both Flags.set setbit streq
load_rules-Stands_example =
    load_rules-Stands two_zones ((true, drop_lan) ∷ []) 0 dropped filter4 (λ s. true) 0 false refl
      (omega arith)

notrack_chain_missing_example :
    (z' : Zone) × (get_elem? (marked Flag.custom_chains ∷ wan ∷ []) 0 ≡ some z')
    × (elem (append_chain not_tracked) (created (print_zone_chain (raw_of 4) false z').1) ≡ false)
unfolding has hasbit
notrack_chain_missing_example =
    notrack_chain_missing two_zones
      (record two_zones { zones = marked Flag.custom_chains ∷ wan ∷ [] }) notrack_lan not_tracked 0
      4 false lan check_rule-notrack_lan refl refl refl refl (omega arith) refl
