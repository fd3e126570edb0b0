-- ===== src/Options/Parse/Port.antt =====
-- `fw3_parse_port`. `bits` is the width of `unsigned long`, and `einval` tells whether the C library's
-- `strtoul` sets `errno` when it finds no digit. `stale` tells whether `errno` is ERANGE or EINVAL when
-- the parser begins, since it does not clear it.
use firewall.Common.{
  ℕ, ◌%◌, ◌^◌, ◌<◌, ◌≤◌, Bool, true, not, ◌||◌, Option, none, some, ◌==◌, ltb, leb, null, drop, ◌≡◌,
  arith, if◌then◌else◌,
}
use firewall.Common.CString.{CString, codes, begins, skip_spaces}
use firewall.Common.Number.{strtoul, scan_digits}
use firewall.Options.Types.{Port}
use firewall.Options.Parse.Words.{negation}

-- Whether `strtoul` sets `errno`: the number is too large, or there is none.
unfoldable pub sets_errno : ℕ → Bool → CString → Bool
sets_errno bits einval s =
    let body = skip_spaces s in
    let signed = begins (codes "-") body || begins (codes "+") body in
    let (n, count, rest) = scan_digits 0 (if signed then drop 1 body else body) in
    if count == 0 then einval else leb (2 ^ bits) n

-- `(uint16_t)strtoul(s, &p, 10)`.
abbrev pub read_port : ℕ → CString → ℕ × CString
read_port bits s = let (n, rest) = strtoul bits s in (n % 2 ^ 16, rest)

abbrev range : Bool → ℕ → ℕ → Port
range invert n m = record { set = true; invert = invert; port_min = n; port_max = m }

unfoldable pub parse_port : ℕ → Bool → Bool → CString → Option Port
unfolding sets_errno negation
parse_port bits einval stale val =
    let (invert, s) = negation val in
    let (n, p) = read_port bits s in
    let (m, rest) = read_port bits (drop 1 p) in
    if stale || sets_errno bits einval s
    then none
    else if null p
    then some (range invert n n)
    else if not (begins (codes "-") p || begins (codes ":") p)
    then none
    else if sets_errno bits einval (drop 1 p) || ltb m n
    then none
    else some (range invert n m)

-- A range of ports that is accepted, whatever its text, is set, is in order, and ends below 2 ^ 16.
pub parse_port-bounds :
    (bits : ℕ) (einval stale : Bool) (val : CString) (port : Port)
    → parse_port bits einval stale val ≡ some port
    → (port.set ≡ true) × (port.port_min ≤ port.port_max) × (port.port_max < 2 ^ 16)
unfolding parse_port
parse_port-bounds bits einval stale val port h = ground arith
