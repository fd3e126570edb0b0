-- ===== src/Options/Parse/Words.antt =====
-- The parsers of words: truth values, families, directions, devices, helpers and protocols.
use firewall.Common.{
  ℕ, Bool, true, false, not, ◌&&◌, ◌||◌, List, [], ◌∷◌, Option, none, some, ◌==◌, null, ◌%◌, ◌^◌,
  if◌then◌else◌,
}
use firewall.Common.CString.{CString, codes, streq, snprintf, skip_spaces, begins}
use firewall.Common.Number.{strtoul}
use firewall.Options.Family
use firewall.Options.Types.{Device, CtHelperMatch, Protocol}

unfoldable pub parse_bool : CString → Bool
parse_bool val = streq val (codes "true") || streq val (codes "yes") || streq val (codes "1")

-- `strchr(val, c)` is not NULL.
unfoldable pub has_char : ℕ → CString → Bool
has_char c [] = false
has_char c (x ∷ val) = x == c || has_char c val

unfoldable pub parse_family : CString → Option ℕ
unfolding has_char
parse_family val =
    if streq val (codes "any") || streq val (codes "*")
    then some Family.any
    else if streq val (codes "inet") || has_char b'4' val
    then some Family.v4
    else if streq val (codes "inet6") || has_char b'6' val
    then some Family.v6
    else none

unfoldable pub parse_direction : CString → Option Bool
parse_direction val =
    if streq val (codes "in") || streq val (codes "ingress")
    then some false
    else if streq val (codes "out") || streq val (codes "egress")
    then some true
    else none

-- `if (*val == '!') { invert = true; while (isspace(*++val)); }`: whether it is negated, and the rest.
unfoldable pub negation : CString → Bool × CString
negation [] = (false, [])
negation (c ∷ val) = if c == b'!' then (true, skip_spaces val) else (false, c ∷ val)

-- What stands before the first `c`, and what stands behind it, if it occurs.
unfoldable pub split_at : ℕ → CString → CString × Option CString
split_at c [] = ([], none)
split_at c (x ∷ val) =
    let (before, after) = split_at c val in if x == c then ([], some val) else (x ∷ before, after)

-- The fields `name` and `network` of a device, and the name of a helper, are buffers of 32 bytes.
abbrev field : CString → CString
field = snprintf 32

abbrev network_field : Option CString → CString
network_field none = []
network_field (some network) = field network

unfoldable pub parse_device : CString → Option Device
unfolding negation split_at
parse_device val =
    let (invert, rest) = negation val in
    let (name, network) = split_at b'@' rest in
    if begins (codes "*") val
    then some (record { set = true; any = true; invert = false; name = []; network = [] })
    else if null name
    then none
    else some (record {
      set = true;
      any = false;
      invert = invert;
      name = field name;
      network = network_field network;
    })

unfoldable pub parse_cthelper : CString → Option CtHelperMatch
unfolding negation
parse_cthelper val =
    let (invert, name) = negation val in
    if null name
    then none
    else some (record { set = true; invert = invert; name = field name; ptr = none })

abbrev protocol_of : Bool → ℕ → Protocol
protocol_of invert n = record { any = false; invert = invert; protocol = n }

-- A protocol by its number, which the field cuts to 32 bits.
unfoldable pub protocol_number : ℕ → Bool → CString → Option (List Protocol)
protocol_number bits invert val =
    let (n, rest) = strtoul bits val in
    if null rest && not (null val) then some (protocol_of invert (n % 2 ^ 32) ∷ []) else none

-- `getprotobyname`, which is the C library's, is a parameter. The values are those that a list takes;
-- a plain field takes the first.
unfoldable pub parse_protocol : (CString → Option ℕ) → ℕ → Bool → CString → Option (List Protocol)
unfolding negation protocol_number
parse_protocol getprotobyname bits is_list val =
    let (invert, word) = negation val in
    let name = if streq word (codes "icmpv6") then codes "ipv6-icmp" else word in
    if streq word (codes "all") || streq word (codes "any") || streq word (codes "*")
    then some (record { any = true; invert = invert; protocol = 0 } ∷ [])
    else if streq word (codes "tcpudp")
    then some (protocol_of invert 6 ∷ (if is_list then protocol_of invert 17 ∷ [] else []))
    else elim (getprotobyname name) [
      | some n ↦ some (protocol_of invert n ∷ [])
      | none ↦ protocol_number bits invert name
    ]
