-- ===== src/Snats/Print/Whole.antt =====
-- The buffers of `set_target` hold what it writes into them.
use firewall.Common.{
  none, ℕ, ◌+◌, ◌-◌, ◌%◌, ◌^◌, ◌≤◌, ◌<◌, true, false, ◌&&◌, [], ◌∷◌, ◌++◌, Option, some, ◌==◌, ◌≡◌,
  refl, arith, length, length-append, if◌then◌else◌, Bool-cases, inl, inr,
}
use firewall.Common.CString.{CString, codes, snprintf, snprintf_fits}
use firewall.Common.Number.{print_decimal, length-print_decimal}
use firewall.Options.Flag
use firewall.Options.Types.{Address, Port, Protocol}
use firewall.Options.Types.Config.{Snat}
use firewall.Iptables.{IptRule, target, addarg}
use firewall.Snats.Print.{
  InetNtop, buf_size, print_ports, source_addr, has_ports, connlimit, to_source, set_target,
}

-- The text of a port or of a range of ports.
abbrev pub IsPort : Port → Type 0
IsPort port = (port.port_min ≤ port.port_max) × (port.port_max < 65536)

print_ports_one :
    (port : Port)
    → (port.port_min == port.port_max) ≡ true
    → print_ports port ≡ codes ":" ++ print_decimal port.port_min
unfolding print_ports
print_ports_one port h = ground arith

print_ports_range :
    (port : Port)
    → (port.port_min == port.port_max) ≡ false
    → print_ports port
      ≡ codes ":" ++ print_decimal port.port_min ++ codes "-" ++ print_decimal port.port_max
unfolding print_ports
print_ports_range port h = ground arith

length-print_ports : (port : Port) → IsPort port → length (print_ports port) ≤ 12
length-print_ports port (ordered, small) =
    let low = length-print_decimal 4 port.port_min (omega arith) in
    let high = length-print_decimal 4 port.port_max (omega arith) in
    elim (Bool-cases (port.port_min == port.port_max)) [
      | inl one ↦ rw (print_ports_one port one) (omega (arith, low))
      | inr range ↦
          rw
            (
              print_ports_range port range,
              length-append (codes ":" ++ print_decimal port.port_min ++ codes "-")
                  (print_decimal port.port_max),
              length-append (codes ":" ++ print_decimal port.port_min) (codes "-"),
            )
            (omega (arith, low, high))
    ]

abbrev limit_calls : Port → IptRule
limit_calls port =
    addarg false (codes "-m") (some (codes "connlimit"))
    ∷ addarg false (codes "--connlimit-daddr") none
    ∷ addarg false (codes "--connlimit-upto")
        (some (print_decimal (1 + port.port_max - port.port_min)))
    ∷ []

-- The calls, written with no buffer.
abbrev pub whole_source : InetNtop → Snat → Option Protocol → IptRule
whole_source inet_ntop snat proto =
    let ip = if snat.ip_snat.set then inet_ntop snat.ip_snat.address else [] in
    let ports = if has_ports snat proto then print_ports snat.port_snat else [] in
    (if has_ports snat proto && snat.connlimit_ports then limit_calls snat.port_snat else [])
    ++ target (codes "SNAT") ∷ addarg false (codes "--to-source") (some (ip ++ ports)) ∷ []

connlimit-eq : (snat : Snat) → IsPort snat.port_snat → connlimit snat ≡ limit_calls snat.port_snat
unfolding connlimit
connlimit-eq snat (ordered, small) =
    let n : ℕ = 1 + snat.port_snat.port_max - snat.port_snat.port_min in
    let exact : (2 ^ 32 + 1 + snat.port_snat.port_max - snat.port_snat.port_min) % 2 ^ 32 ≡ n =
      omega arith in
    let fits = length-print_decimal 4 n (omega arith) in
    rw (exact, snprintf_fits 6 (print_decimal n) (omega (arith, fits))) refl

source_addr-eq :
    (inet_ntop : InetNtop) (addr : Address)
    → length (inet_ntop addr.address) ≤ 15
    → source_addr inet_ntop addr ≡ some (if addr.set then inet_ntop addr.address else [])
unfolding source_addr
source_addr-eq inet_ntop addr h = ground arith

set_target-snat :
    (inet_ntop : InetNtop) (snat : Snat) (proto : Option Protocol)
    → snat.target ≡ Flag.snat
    → set_target inet_ntop snat proto ≡ to_source inet_ntop snat proto
unfolding set_target
set_target-snat inet_ntop snat proto e = ground arith

to_source_fits :
    (inet_ntop : InetNtop) (snat : Snat) (proto : Option Protocol) (ip : CString)
    → source_addr inet_ntop snat.ip_snat ≡ some ip
    → to_source inet_ntop snat proto
      ≡ (if has_ports snat proto && snat.connlimit_ports then connlimit snat else [])
        ++ target (codes "SNAT")
          ∷ addarg false (codes "--to-source") (
              some (
                ip
                ++ (if has_ports snat proto
                    then snprintf (buf_size - length ip) (print_ports snat.port_snat)
                    else [])))
          ∷ []
unfolding to_source
to_source_fits inet_ntop snat proto ip h = ground arith

-- Where `inet_ntop` writes at most the fifteen characters of an IPv4 address and the ports are in order
-- and below 65536: the argument of `--to-source` and that of `--connlimit-upto` are written whole, and
-- every SNAT rule gets its target.
pub set_target_whole :
    (inet_ntop : InetNtop) (snat : Snat) (proto : Option Protocol)
    → length (inet_ntop snat.ip_snat.address) ≤ 15
    → IsPort snat.port_snat
    → snat.target ≡ Flag.snat
    → set_target inet_ntop snat proto ≡ whole_source inet_ntop snat proto
set_target_whole inet_ntop snat proto short port e =
    let ip : CString = if snat.ip_snat.set then inet_ntop snat.ip_snat.address else [] in
    let len : length ip ≤ 15 = elim (Bool-cases snat.ip_snat.set) [
      | inl on ↦ rw on short
      | inr off ↦ rw off (omega arith)
    ] in
    let ports = length-print_ports snat.port_snat port in
    rw
      (
        set_target-snat inet_ntop snat proto e,
        to_source_fits inet_ntop snat proto ip (source_addr-eq inet_ntop snat.ip_snat short),
        connlimit-eq snat port,
        snprintf_fits (buf_size - length ip) (print_ports snat.port_snat)
            (omega (arith, ports, len)),
      )
      refl
