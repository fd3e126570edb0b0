-- ===== src/Tests/Redirects.antt =====
-- The results on redirects at concrete inputs.
use firewall.Common.{true, false, List, [], ◌∷◌, none, some, ◌≡◌, refl, arith, All}
use firewall.Common.CString.{CString, codes}
use firewall.Options.Types.{Address, InetAddr, Zone}
use firewall.Options.Types.Config.{Redirect}
use firewall.Utils.Flags.{is_family}
use firewall.Zones.Lookup.{modify, set_v4}
use firewall.Zones.Grows.{Extends}
use firewall.Zones.Chains.Nat.{nat4}
use firewall.Options.Flag
use firewall.Redirects.{
  load_redirects, load_redirect, set_reflection, helper_by_port, select_helper, modify_at,
}
use firewall.Redirects.Served.{Served}
use firewall.Redirects.Loaded.{load_redirects-Served}
use firewall.Redirects.Helper.{select_helper_last}
use firewall.Redirects.Reflected.{LandsNat, load_redirects-reflection_exists}
use firewall.Redirects.Expand.{reflection_rules}
use firewall.Tests.Sample.{lan, no_address}
use firewall.Tests.NatSample.{ftp_redirect, nat_zones, protocol}

-- 192.168.1.1, and the host that a DNAT names, in one network.
abbrev lan_addrs : Zone → List Address
lan_addrs z = record no_address { set = true } ∷ []

-- What the parsers leave, checked: the zones are found, and the port is taken from the destination.
abbrev loaded_ftp : Redirect
loaded_ftp = record ftp_redirect {
  src_zone = some 1;
  dest_zone = some 0;
  port_redir = ftp_redirect.port_dest;
}

abbrev digits : InetAddr → CString
digits a = codes "192.168.1.2"

load_redirects-Served_example :
    Extends nat_zones.zones (load_redirects lan_addrs nat_zones ((true, ftp_redirect) ∷ [])).zones
    × All
        (Served (load_redirects lan_addrs nat_zones ((true, ftp_redirect) ∷ [])).zones)
        (load_redirects lan_addrs nat_zones ((true, ftp_redirect) ∷ [])).redirects
load_redirects-Served_example =
    load_redirects-Served lan_addrs nat_zones ((true, ftp_redirect) ∷ [])

-- FTP's helper is for TCP, and UDP is the last protocol: the helper is lost.
select_helper_last_example :
    ((select_helper nat_zones loaded_ftp).1.helper.ptr
      ≡ helper_by_port nat_zones.cthelpers (protocol 17) loaded_ftp.port_redir)
    × ((select_helper nat_zones loaded_ftp).0.zones
        ≡ modify_at loaded_ftp.src_zone (set_v4 Flag.helper) nat_zones.zones)
unfolding firewall.Redirects.wants_helper helper_by_port firewall.Helpers.check_proto
    firewall.Helpers.port_matches firewall.Common.find_index
select_helper_last_example =
    select_helper_last nat_zones loaded_ftp (protocol 6 ∷ []) (protocol 17) refl refl refl

no_helper_left : helper_by_port nat_zones.cthelpers (protocol 17) loaded_ftp.port_redir ≡ none
unfolding helper_by_port firewall.Helpers.check_proto firewall.Helpers.port_matches
    firewall.Common.find_index
no_helper_left = refl

load_redirects-reflection_exists_example : All (LandsNat false (set_reflection lan)) (
    reflection_rules digits lan_addrs nat4
      (load_redirects lan_addrs nat_zones ((true, ftp_redirect) ∷ []))
      loaded_ftp
      0)
unfolding load_redirects load_redirect firewall.Sections.each_section
    firewall.Redirects.check_redirect firewall.Redirects.add_redirect select_helper
    firewall.Redirects.match_helpers firewall.Redirects.wants_helper helper_by_port
    firewall.Helpers.check_proto firewall.Helpers.port_matches firewall.Common.find_index
    firewall.Rules.Check.resolve_zone firewall.Rules.Check.resolve_ipset
    firewall.Rules.Check.resolve_cthelper firewall.Zones.Lookup.lookup_zone
    firewall.Common.CString.streq modify set_v4 firewall.Redirects.finish_redirect
    firewall.Redirects.check_families firewall.Redirects.default_target firewall.Redirects.or_tcpudp
    firewall.Redirects.finish_dnat firewall.Redirects.dnat_valid firewall.Redirects.place
    firewall.Redirects.check_local firewall.Redirects.mark_dnat set_reflection
    firewall.Redirects.or_port is_family firewall.Utils.Flags.set firewall.Common.Bits.setbit
load_redirects-reflection_exists_example =
    load_redirects-reflection_exists digits lan_addrs nat_zones ((true, ftp_redirect) ∷ []) 0 0
      loaded_ftp 0 (set_reflection lan) false refl refl refl refl (omega arith) refl
