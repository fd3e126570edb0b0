-- ===== src/Tests/Forwards.antt =====
-- The results on forwards at concrete inputs.
use firewall.Common.{◌^◌, true, false, [], ◌∷◌, some, refl, arith, inl}
use firewall.Common.Bits.{setbit}
use firewall.Common.CString.{streq}
use firewall.Options.Flag
use firewall.Options.Types.{Zone}
use firewall.Options.Types.Config.{Forward}
use firewall.Utils.Flags.{is_family}
use firewall.Utils.Flags
use firewall.Zones.Lookup.{lookup_zone, modify, set_both}
use firewall.Zones.Chains.Exists.{Creates}
use firewall.Rules.Check.{resolve_zone}
use firewall.Forwards.Check.{load_forward, load_forwards, check_forward, mark_dest}
use firewall.Forwards.Served.{AllServed, load_forwards-AllServed}
use firewall.Forwards.Print.{append_chain, set_target}
use firewall.Forwards.Exists.{load_forwards-target_exists, load_forwards-chain_exists}
use firewall.Tests.Sample.{lan, wan, two_zones, forward_lan}

abbrev linked : Forward
linked = record forward_lan { src_zone = some 0; dest_zone = some 1 }

abbrev marked_wan : Zone
marked_wan = record wan { flags = record { v4 = 2 ^ Flag.accept; v6 = 2 ^ Flag.accept } }

load_forwards-AllServed_example : AllServed (load_forwards two_zones ((true, forward_lan) ∷ []))
load_forwards-AllServed_example = load_forwards-AllServed two_zones ((true, forward_lan) ∷ [])

load_forwards-target_exists_example : Creates 4 false marked_wan (set_target linked)
unfolding load_forwards load_forward check_forward mark_dest resolve_zone lookup_zone modify
    set_both Flags.set setbit streq is_family
load_forwards-target_exists_example =
    load_forwards-target_exists two_zones ((true, forward_lan) ∷ []) 0 linked marked_wan 4 false
      refl refl (inl refl) refl (omega arith)

load_forwards-chain_exists_example : Creates 5 true lan (append_chain linked)
unfolding load_forwards load_forward check_forward mark_dest resolve_zone lookup_zone modify
    set_both Flags.set setbit streq is_family
load_forwards-chain_exists_example =
    load_forwards-chain_exists two_zones ((true, forward_lan) ∷ []) 0 linked lan 5 true refl refl
      refl (omega arith)
