-- ===== src/Tests/Snats.antt =====
-- The results on source NAT at concrete inputs.
use firewall.Common.{true, false, [], ◌∷◌, some, ◌≡◌, refl, arith, All, null}
use firewall.Common.CString.{CString, codes}
use firewall.Options.Types.{InetAddr}
use firewall.Zones.Grows.{Extends}
use firewall.Zones.Chains.Nat.{nat4}
use firewall.Snats.{load_snats, check_snat}
use firewall.Snats.Checked.{IsChecked, load_snats-IsChecked}
use firewall.Snats.Print.{set_target, expand_snat}
use firewall.Snats.Print.Whole.{whole_source, set_target_whole}
use firewall.Snats.Exists.{IsBare, filled, bare_snat_printed}
use firewall.Tests.Sample.{two_zones}
use firewall.Tests.NatSample.{bare_snat, snat_wan, protocol}

abbrev digits : InetAddr → CString
digits a = codes "10.0.0.1"

load_snats-IsChecked_example :
    Extends two_zones.zones (load_snats two_zones ((true, snat_wan) ∷ [])).zones
    × All
        (IsChecked (load_snats two_zones ((true, snat_wan) ∷ [])).zones)
        (load_snats two_zones ((true, snat_wan) ∷ [])).snats
load_snats-IsChecked_example = load_snats-IsChecked two_zones ((true, snat_wan) ∷ [])

set_target_whole_example :
    set_target digits snat_wan (some (protocol 6))
    ≡ whole_source digits snat_wan (some (protocol 6))
set_target_whole_example =
    set_target_whole digits snat_wan (some (protocol 6)) (omega arith) (omega arith, omega arith)
      refl

is_bare : IsBare bare_snat
unfolding firewall.Snats.target_has_options firewall.Snats.default_target
is_bare = record {
  enabled = refl;
  src = refl;
  ipset = refl;
  ptr = refl;
  ip_src = refl;
  ip_dest = refl;
  ip_snat = refl;
  options = refl;
}

bare_snat_printed_example :
    (check_snat two_zones bare_snat ≡ some (two_zones, filled bare_snat))
    × (null (expand_snat digits (λ set. false) nat4 two_zones (filled bare_snat) 0).1 ≡ false)
bare_snat_printed_example = bare_snat_printed digits (λ set. false) two_zones bare_snat 0 is_bare
