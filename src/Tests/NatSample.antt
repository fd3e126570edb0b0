-- ===== src/Tests/NatSample.antt =====
-- Small examples of redirects, source NAT, helpers and includes.
use firewall.Common.{ℕ, true, false, [], ◌∷◌, none, some}
use firewall.Common.CString.{codes}
use firewall.Options.Flag
use firewall.Options.Types.{Port, Protocol, in4, Address}
use firewall.Options.Types.Config.{Redirect, Snat, Include, CtHelper, State}
use firewall.Tests.Sample.{
  no_limit, no_device, named, no_mark, no_helper, no_time, lan, wan, two_zones, no_address,
}

abbrev pub no_port : Port
no_port = record { set = false; invert = false; port_min = 0; port_max = 0 }

-- An address option that is not given.
abbrev pub unset : Address
unset = record no_address { family = 0 }

abbrev pub protocol : ℕ → Protocol
protocol n = record { any = false; invert = false; protocol = n }

-- From `wan` to the host 192.168.1.2 of `lan`, port 21, for UDP behind TCP.
abbrev pub ftp_redirect : Redirect
ftp_redirect = record {
  enabled = true;
  name = none;
  family = 0;
  src_zone = none;
  dest_zone = none;
  src = named (codes "wan");
  dest = named (codes "lan");
  ipset = record { set = false; invert = false; name = []; dir = []; ptr = none };
  helper = no_helper;
  proto = protocol 6 ∷ protocol 17 ∷ [];
  ip_src = unset;
  mac_src = [];
  port_src = no_port;
  ip_dest = unset;
  port_dest = record { set = true; invert = false; port_min = 21; port_max = 21 };
  ip_redir = record no_address { set = true; address = in4 3232235778 };
  port_redir = no_port;
  limit = no_limit;
  time = no_time;
  mark = no_mark;
  target = Flag.dnat;
  extra = none;
  local = false;
  reflection = true;
  reflection_src = 0;
  reflection_zones = [];
}

-- MASQUERADE for IPv6, with no zone and no address.
abbrev pub bare_snat : Snat
bare_snat = record {
  enabled = true;
  name = none;
  family = 5;
  src_zone = none;
  src = no_device;
  ipset = record { set = false; invert = false; name = []; dir = []; ptr = none };
  helper = no_helper;
  device = none;
  proto = [];
  ip_src = unset;
  port_src = no_port;
  ip_dest = unset;
  port_dest = no_port;
  ip_snat = unset;
  port_snat = no_port;
  limit = no_limit;
  time = no_time;
  mark = no_mark;
  connlimit_ports = false;
  target = 0;
  extra = none;
}

-- From `wan`, to the address 10.0.0.1 and the ports 1024 to 2047.
abbrev pub snat_wan : Snat
snat_wan = record bare_snat {
  family = 4;
  src = named (codes "wan");
  ip_snat = record no_address { set = true; address = in4 167772161 };
  port_snat = record { set = true; invert = false; port_min = 1024; port_max = 2047 };
  connlimit_ports = true;
  target = Flag.snat;
}

abbrev pub ftp_helper : CtHelper
ftp_helper = record {
  enabled = true;
  name = codes "ftp";
  module_name = some (codes "nf_conntrack_ftp");
  description = none;
  family = 0;
  proto = protocol 6 ∷ [];
  port = record { set = true; invert = false; port_min = 21; port_max = 21 };
}

-- `wan` with masquerading, `lan` behind it.
abbrev pub nat_zones : State
nat_zones = record two_zones {
  zones = lan ∷ record wan { masq = true } ∷ [];
  cthelpers = ftp_helper ∷ [];
}

abbrev pub restore_file : Include
restore_file = record {
  enabled = true;
  name = none;
  family = 4;
  path = some (codes "/etc/firewall.rules");
  type = 1;
  reload = false;
}
