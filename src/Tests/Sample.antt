-- ===== src/Tests/Sample.antt =====
-- A zone, a rule and a state with nothing set, as the allocators leave them, and small examples.
use firewall.Common.{true, false, [], ◌∷◌, none, some}
use firewall.Common.CString.{CString, codes}
use firewall.Options.Flag
use firewall.Options.Types.{Device, in4, Address, Limit, Mark, CtHelperMatch, Defaults, Zone}
use firewall.Options.Types.Config.{Time, Rule, Forward, Ipset, State}
use firewall.Utils.Flags.{Flags}

abbrev pub no_flags : Flags
no_flags = record { v4 = 0; v6 = 0 }

abbrev pub no_limit : Limit
no_limit = record { invert = false; rate = 0; burst = 0; unit = 0 }

abbrev pub no_device : Device
no_device = record { set = false; any = false; invert = false; name = []; network = [] }

abbrev pub named : CString → Device
named name = record no_device { set = true; name = name }

abbrev pub no_mark : Mark
no_mark = record { set = false; invert = false; mark = 0; mask = 0 }

abbrev pub no_helper : CtHelperMatch
no_helper = record { set = false; invert = false; name = []; ptr = none }

abbrev pub no_time : Time
no_time = record {
  utc = false;
  datestart = none;
  datestop = none;
  timestart = 0;
  timestop = 0;
  monthdays = 0;
  weekdays = 0;
}

abbrev pub no_defaults : Defaults
no_defaults = record {
  policy_input = Flag.reject;
  policy_output = Flag.accept;
  policy_forward = Flag.drop;
  drop_invalid = false;
  tcp_reject_code = 0;
  any_reject_code = 1;
  syn_flood = true;
  syn_flood_rate = no_limit;
  tcp_syncookies = true;
  tcp_ecn = 0;
  tcp_window_scaling = true;
  accept_redirects = false;
  accept_source_route = false;
  custom_chains = true;
  auto_helper = true;
  flow_offloading = false;
  flow_offloading_hw = false;
  disable_ipv6 = false;
  flags = no_flags;
}

-- The zone `lan`: it logs, and has its own chains for the user.
abbrev pub lan : Zone
lan = record {
  enabled = true;
  name = codes "lan";
  family = 0;
  policy_input = Flag.accept;
  policy_output = Flag.accept;
  policy_forward = Flag.reject;
  networks = [];
  devices = named (codes "br-lan") ∷ [];
  subnets = [];
  extra_src = none;
  extra_dest = none;
  masq = false;
  masq_allow_invalid = false;
  masq_src = [];
  masq_dest = [];
  mtu_fix = false;
  cthelpers = [];
  log = 1;
  log_limit = no_limit;
  custom_chains = true;
  auto_helper = false;
  flags = no_flags;
  old_addrs = [];
}

abbrev pub wan : Zone
wan = record lan { name = codes "wan"; family = 4; log = 0; custom_chains = false }

abbrev pub no_rule : Rule
no_rule = record {
  enabled = true;
  name = none;
  family = 0;
  src_zone = none;
  dest_zone = none;
  device = none;
  direction_out = false;
  src = no_device;
  dest = no_device;
  ipset = record { set = false; invert = false; name = []; dir = []; ptr = none };
  helper = no_helper;
  proto = [];
  ip_src = [];
  mac_src = [];
  port_src = [];
  ip_dest = [];
  port_dest = [];
  icmp_type = [];
  limit = no_limit;
  time = no_time;
  mark = no_mark;
  dscp = record { set = false; invert = false; dscp = 0 };
  target = 0;
  set_mark = no_mark;
  set_xmark = no_mark;
  set_dscp = record { set = false; invert = false; dscp = 0 };
  set_helper = no_helper;
  extra = none;
}

-- From `lan`, dropped; from `lan` to `wan`, with no target; from `lan`, not tracked.
abbrev pub drop_lan : Rule
drop_lan = record no_rule { src = named (codes "lan"); target = Flag.drop }

abbrev pub lan_to_wan : Rule
lan_to_wan = record no_rule { src = named (codes "lan"); dest = named (codes "wan") }

abbrev pub notrack_lan : Rule
notrack_lan = record no_rule { src = named (codes "lan"); target = Flag.notrack }

abbrev pub two_zones : State
two_zones = record {
  defaults = no_defaults;
  zones = lan ∷ wan ∷ [];
  rules = [];
  redirects = [];
  snats = [];
  forwards = [];
  ipsets = [];
  includes = [];
  cthelpers = [];
  disable_ipsets = false;
  statefile = false;
}

abbrev pub forward_lan : Forward
forward_lan = record {
  enabled = true;
  name = none;
  family = 0;
  src_zone = none;
  dest_zone = none;
  src = named (codes "lan");
  dest = named (codes "wan");
}

abbrev pub no_address : Address
no_address = record {
  set = false;
  range = false;
  invert = false;
  resolved = false;
  family = 4;
  address = in4 0;
  mask = in4 0;
}

-- A set of ports with no method: 20 to 25, and a number of elements that a bitmap does not have.
abbrev pub ports : Ipset
ports = record {
  enabled = true;
  reload_set = false;
  counters = false;
  comment = false;
  name = some (codes "mail");
  family = 4;
  method = 0;
  datatypes = record { type = 2; dir = codes "dst" } ∷ [];
  iprange = no_address;
  portrange = record { set = true; invert = false; port_min = 20; port_max = 25 };
  netmask = 0;
  maxelem = 100;
  hashsize = 0;
  timeout = none;
  external = none;
  entries = [];
  loadfile = none;
  flags = no_flags;
}
