-- ===== src/Options/Types/Config.antt =====
-- options.h: the sections of a configuration that refer to zones, sets and helpers, and the state
-- that holds them all.
use firewall.Common.{ℕ, Bool, List, Option}
use firewall.Common.CString.{CString}
use firewall.Options.Types.{
  SetMatch, Device, Address, Mac, Protocol, Port, IcmpType, Limit, Mark, Dscp, CtHelperMatch,
  Defaults, Zone,
}
use firewall.Utils.Flags.{Flags}

-- `struct tm`, the fields that the parsers fill.
pub record Tm : Type 0 where
  pub tm_year : ℕ
  pub tm_mon : ℕ
  pub tm_mday : ℕ
  pub tm_hour : ℕ
  pub tm_min : ℕ
  pub tm_sec : ℕ

pub record Time : Type 0 where
  pub utc : Bool
  pub datestart : Option Tm
  pub datestop : Option Tm
  pub timestart : ℕ
  pub timestop : ℕ
  pub monthdays : ℕ
  pub weekdays : ℕ

pub record Rule : Type 0 where
  pub enabled : Bool
  pub name : Option CString
  pub family : ℕ
  pub src_zone : Option ℕ  -- _src
  pub dest_zone : Option ℕ  -- _dest
  pub device : Option CString
  pub direction_out : Bool
  pub src : Device
  pub dest : Device
  pub ipset : SetMatch
  pub helper : CtHelperMatch
  pub proto : List Protocol
  pub ip_src : List Address
  pub mac_src : List Mac
  pub port_src : List Port
  pub ip_dest : List Address
  pub port_dest : List Port
  pub icmp_type : List IcmpType
  pub limit : Limit
  pub time : Time
  pub mark : Mark
  pub dscp : Dscp
  pub target : ℕ
  pub set_mark : Mark
  pub set_xmark : Mark
  pub set_dscp : Dscp
  pub set_helper : CtHelperMatch
  pub extra : Option CString

pub record Redirect : Type 0 where
  pub enabled : Bool
  pub name : Option CString
  pub family : ℕ
  pub src_zone : Option ℕ  -- _src
  pub dest_zone : Option ℕ  -- _dest
  pub src : Device
  pub dest : Device
  pub ipset : SetMatch
  pub helper : CtHelperMatch
  pub proto : List Protocol
  pub ip_src : Address
  pub mac_src : List Mac
  pub port_src : Port
  pub ip_dest : Address
  pub port_dest : Port
  pub ip_redir : Address
  pub port_redir : Port
  pub limit : Limit
  pub time : Time
  pub mark : Mark
  pub target : ℕ
  pub extra : Option CString
  pub local : Bool
  pub reflection : Bool
  pub reflection_src : ℕ
  pub reflection_zones : List Device

pub record Snat : Type 0 where
  pub enabled : Bool
  pub name : Option CString
  pub family : ℕ
  pub src_zone : Option ℕ  -- _src
  pub src : Device
  pub ipset : SetMatch
  pub helper : CtHelperMatch
  pub device : Option CString
  pub proto : List Protocol
  pub ip_src : Address
  pub port_src : Port
  pub ip_dest : Address
  pub port_dest : Port
  pub ip_snat : Address
  pub port_snat : Port
  pub limit : Limit
  pub time : Time
  pub mark : Mark
  pub connlimit_ports : Bool
  pub target : ℕ
  pub extra : Option CString

pub record Forward : Type 0 where
  pub enabled : Bool
  pub name : Option CString
  pub family : ℕ
  pub src_zone : Option ℕ  -- _src
  pub dest_zone : Option ℕ  -- _dest
  pub src : Device
  pub dest : Device

pub record IpsetDatatype : Type 0 where
  pub type : ℕ
  pub dir : CString

-- A negative `netmask`, `maxelem` or `hashsize`, which no test of ipsets.c tells from 0, is 0.
pub record Ipset : Type 0 where
  pub enabled : Bool
  pub reload_set : Bool
  pub counters : Bool
  pub comment : Bool
  pub name : Option CString
  pub family : ℕ
  pub method : ℕ
  pub datatypes : List IpsetDatatype
  pub iprange : Address
  pub portrange : Port
  pub netmask : ℕ
  pub maxelem : ℕ
  pub hashsize : ℕ
  pub timeout : Option ℕ  -- none for a negative number
  pub external : Option CString
  pub entries : List CString
  pub loadfile : Option CString
  pub flags : Flags

pub record CtHelper : Type 0 where
  pub enabled : Bool
  pub name : CString
  pub module_name : Option CString
  pub description : Option CString
  pub family : ℕ
  pub proto : List Protocol
  pub port : Port

pub record Include : Type 0 where
  pub enabled : Bool
  pub name : Option CString
  pub family : ℕ
  pub path : Option CString
  pub type : ℕ
  pub reload : Bool

pub record State : Type 0 where
  pub defaults : Defaults
  pub zones : List Zone
  pub rules : List Rule
  pub redirects : List Redirect
  pub snats : List Snat
  pub forwards : List Forward
  pub ipsets : List Ipset
  pub includes : List Include
  pub cthelpers : List CtHelper
  pub disable_ipsets : Bool
  pub statefile : Bool
