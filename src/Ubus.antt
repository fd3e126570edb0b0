-- ===== src/Ubus.antt =====
-- ubus.c: what the message bus says of the network's interfaces. The dump that the bus sends is a
-- parameter, a list of interfaces with the attributes that the program reads; `inet_pton` is the C
-- library's.
use firewall.Common.{
  ℕ, ◌-◌, ◌^◌, Bool, true, false, not, List, [], ◌∷◌, ◌++◌, Option, none, some, ◌==◌, ltb, map,
  if◌then◌else◌, replicate,
}
use firewall.Common.CString.{CString, streq, snprintf}
use firewall.Options.Family
use firewall.Options.Types.{Address, Device, InetAddr, in4, in6}
use firewall.Options.Parse.Words.{parse_device}
use firewall.Utils.Netmask.{bitlen2netmask_v4, bitlen2netmask_v6}

pub record Subnet : Type 0 where
  pub address : Option CString
  pub mask : Option ℕ

pub record Interface : Type 0 where
  pub interface : Option CString
  pub device : Option CString
  pub l3_device : Option CString
  pub ipv4_address : List Subnet
  pub ipv6_address : List Subnet
  pub ipv6_prefix : List Subnet
  pub zone : Option CString  -- of the table `data`

-- `inet_pton` for a family.
abbrev pub InetPton : Type 0
InetPton = ℕ → CString → Option InetAddr

-- The bytes that calloc cleared.
abbrev zeroed : ℕ → InetAddr
zeroed family = if family == Family.v4 then in4 0 else in6 (replicate 16 0)

-- `fw3_bitlen2netmask(family, blobmsg_get_u32(cur), ...)`: the number is read as an `int`.
abbrev netmask_of : ℕ → ℕ → Option InetAddr
netmask_of family bits =
    let negative = not (ltb bits (2 ^ 31)) in
    let size = if negative then 2 ^ 32 - bits else bits in
    if family == Family.v4 then bitlen2netmask_v4 negative size else bitlen2netmask_v6 negative size

abbrev or_zeroed : ℕ → Option InetAddr → InetAddr
or_zeroed family none = zeroed family
or_zeroed family (some a) = a

abbrev read_address : InetPton → ℕ → Option CString → InetAddr
read_address inet_pton family none = zeroed family
read_address inet_pton family (some s) = or_zeroed family (inet_pton family s)

abbrev read_mask : ℕ → Option ℕ → InetAddr
read_mask family none = zeroed family
read_mask family (some bits) = or_zeroed family (netmask_of family bits)

unfoldable pub parse_subnet : InetPton → ℕ → Subnet → Address
parse_subnet inet_pton family s = record {
  set = true;
  range = false;
  invert = false;
  resolved = false;
  family = family;
  address = read_address inet_pton family s.address;
  mask = read_mask family s.mask;
}

-- `tb[..] && !strcmp(..., net)`.
unfoldable pub is_named : CString → Option CString → Bool
is_named net none = false
is_named net (some name) = streq name net

-- `fw3_ubus_address`, as the addresses that it appends; their number is what it returns.
unfoldable pub ubus_address : InetPton → List Interface → CString → List Address
unfolding parse_subnet is_named
ubus_address inet_pton [] net = []
ubus_address inet_pton (i ∷ interfaces) net =
    (if is_named net i.interface
      then map (parse_subnet inet_pton Family.v4) i.ipv4_address
        ++ (map (parse_subnet inet_pton Family.v6) i.ipv6_address
            ++ map (parse_subnet inet_pton Family.v6) i.ipv6_prefix)
      else [])
    ++ ubus_address inet_pton interfaces net

-- The device of an interface; none if it has neither attribute.
unfoldable pub device_name : Interface → Option CString
device_name i = elim i.l3_device [ some name ↦ some name | none ↦ i.device ]

-- `fw3_ubus_device`.
unfoldable pub ubus_device : List Interface → CString → Option Device
unfolding is_named device_name
ubus_device [] net = none
ubus_device (i ∷ interfaces) net =
    let rest = ubus_device interfaces net in
    if not (is_named net i.interface) then rest else elim (device_name i) [
      | none ↦ rest
      | some name ↦ some (record {
        set = true;
        any = false;
        invert = false;
        name = snprintf 32 name;
        network = [];
      })
    ]

-- `fw3_ubus_zone_devices`, as the networks that it appends to those of the zone with the name.
unfoldable pub ubus_zone_devices : List Interface → CString → List Device
ubus_zone_devices [] name = []
ubus_zone_devices (i ∷ interfaces) name =
    let rest = ubus_zone_devices interfaces name in
    if not (is_named name i.zone) then rest else elim i.interface [
      | none ↦ rest
      | some net ↦ elim (parse_device net) [ none ↦ rest | some dev ↦ dev ∷ rest ]
    ]
