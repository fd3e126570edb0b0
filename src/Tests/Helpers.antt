-- ===== src/Tests/Helpers.antt =====
-- The results on helpers at concrete inputs.
use firewall.Common.{true, false, [], ◌∷◌, none, some, refl, All}
use firewall.Common.CString.{codes}
use firewall.Options.Types.{Port, Protocol}
use firewall.Options.Types.Config.{CtHelper}
use firewall.Helpers.{lookup_cthelper_by_proto_port, check_proto, port_matches}
use firewall.Helpers.Load.{
  load_all, load_all-IsChecked, IsChecked, IsFound, lookup_cthelper_by_proto_port-IsFound,
}
use firewall.Tests.Sample.{two_zones}

abbrev tcp : Protocol
tcp = record { any = false; invert = false; protocol = 6 }

abbrev port_21 : Port
port_21 = record { set = true; invert = false; port_min = 21; port_max = 21 }

abbrev ftp : CtHelper
ftp = record {
  enabled = true;
  name = codes "ftp";
  module_name = some (codes "nf_conntrack_ftp");
  description = none;
  family = 0;
  proto = tcp ∷ [];
  port = port_21;
}

-- The second helper has no name, and is not kept.
load_all-IsChecked_example :
    All IsChecked (load_all (some (ftp ∷ [])) (record ftp { name = [] } ∷ []) two_zones).cthelpers
load_all-IsChecked_example =
    load_all-IsChecked (some (ftp ∷ [])) (record ftp { name = [] } ∷ []) two_zones

lookup_cthelper_by_proto_port-IsFound_example :
    IsFound (record ftp { enabled = false } ∷ ftp ∷ []) tcp (some port_21) ftp
unfolding lookup_cthelper_by_proto_port check_proto port_matches
lookup_cthelper_by_proto_port-IsFound_example =
    lookup_cthelper_by_proto_port-IsFound (record ftp { enabled = false } ∷ ftp ∷ []) tcp
      (some port_21) ftp refl
