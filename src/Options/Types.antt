-- ===== src/Options/Types.antt =====
-- The structures of options.h. A `list_head` is a list. A pointer to a zone is the zone's index
-- in the state's list, which is the store that the rules share. A `const char *` that may be NULL
-- is an `Option`; a name that is NULL is the empty string, which every user treats alike.
pub mod Config
use firewall.Common.{ℕ, Bool, List, Option}
use firewall.Common.CString.{CString}
use firewall.Utils.Flags.{Flags}

pub record SetMatch : Type 0 where
  pub set : Bool
  pub invert : Bool
  pub name : CString
  pub dir : List (Option CString)
  pub ptr : Option ℕ

pub record Device : Type 0 where
  pub set : Bool
  pub any : Bool
  pub invert : Bool
  pub name : CString
  pub network : CString

-- The union of an IPv4 address, as its 32-bit number in host order, and an IPv6 address, as its
-- sixteen bytes.
pub data InetAddr : Type 0 where
  in4 : ℕ → InetAddr
  in6 : List ℕ → InetAddr

pub record Address : Type 0 where
  pub set : Bool
  pub range : Bool
  pub invert : Bool
  pub resolved : Bool
  pub family : ℕ
  pub address : InetAddr
  pub mask : InetAddr

pub record Mac : Type 0 where
  pub set : Bool
  pub invert : Bool
  pub mac : List ℕ

pub record Protocol : Type 0 where
  pub any : Bool
  pub invert : Bool
  pub protocol : ℕ  -- uint32_t

pub record Port : Type 0 where
  pub set : Bool
  pub invert : Bool
  pub port_min : ℕ  -- uint16_t
  pub port_max : ℕ  -- uint16_t

pub record IcmpType : Type 0 where
  pub invert : Bool
  pub family : ℕ
  pub type : ℕ
  pub code_min : ℕ
  pub code_max : ℕ
  pub type6 : ℕ
  pub code6_min : ℕ
  pub code6_max : ℕ

pub record Limit : Type 0 where
  pub invert : Bool
  pub rate : ℕ
  pub burst : ℕ
  pub unit : ℕ

pub record Mark : Type 0 where
  pub set : Bool
  pub invert : Bool
  pub mark : ℕ
  pub mask : ℕ

pub record Dscp : Type 0 where
  pub set : Bool
  pub invert : Bool
  pub dscp : ℕ

pub record CtHelperMatch : Type 0 where
  pub set : Bool
  pub invert : Bool
  pub name : CString
  pub ptr : Option ℕ

pub record Defaults : Type 0 where
  pub policy_input : ℕ
  pub policy_output : ℕ
  pub policy_forward : ℕ
  pub drop_invalid : Bool
  pub tcp_reject_code : ℕ
  pub any_reject_code : ℕ
  pub syn_flood : Bool
  pub syn_flood_rate : Limit
  pub tcp_syncookies : Bool
  pub tcp_ecn : ℕ
  pub tcp_window_scaling : Bool
  pub accept_redirects : Bool
  pub accept_source_route : Bool
  pub custom_chains : Bool
  pub auto_helper : Bool
  pub flow_offloading : Bool
  pub flow_offloading_hw : Bool
  pub disable_ipv6 : Bool
  pub flags : Flags

pub record Zone : Type 0 where
  pub enabled : Bool
  pub name : CString
  pub family : ℕ
  pub policy_input : ℕ
  pub policy_output : ℕ
  pub policy_forward : ℕ
  pub networks : List Device
  pub devices : List Device
  pub subnets : List Address
  pub extra_src : Option CString
  pub extra_dest : Option CString
  pub masq : Bool
  pub masq_allow_invalid : Bool
  pub masq_src : List Address
  pub masq_dest : List Address
  pub mtu_fix : Bool
  pub cthelpers : List CtHelperMatch
  pub log : ℕ
  pub log_limit : Limit
  pub custom_chains : Bool
  pub auto_helper : Bool
  pub flags : Flags
  pub old_addrs : List Address

pub record ChainSpec : Type 0 where
  pub family : ℕ
  pub table : ℕ
  pub flag : ℕ
  pub format : CString
