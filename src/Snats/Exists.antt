-- ===== src/Snats/Exists.antt =====
-- The chain of a source NAT rule, and the family of its section.
use firewall.Common.{
  ℕ, ◌≤◌, Bool, true, false, ◌||◌, List, [], ◌∷◌, ◌++◌, none, some, ◌≡◌, refl, sym, ap, ◌∙◌, subst,
  arith, get_elem?, All-get_elem?, length, null, foreach,
}
use firewall.Common.CString.{codes}
use firewall.Options.Family
use firewall.Options.Flag
use firewall.Options.Types.{Protocol, Zone}
use firewall.Options.Types.Config.{Ipset, Snat, State}
use firewall.Utils.Flags.{has, is_family}
use firewall.Zones.ChainNames.{zone_maxnamelen}
use firewall.Zones.Chains.Nat.{nat4, CreatesNat, postrouting_chain_exists}
use firewall.Rules.Check.{resolve_zone, resolve_ipset}
use firewall.Rules.Expand.{ipset_ready}
use firewall.Snats.{
  check_families, default_target, target_has_options, mark_source, or_all, finish_snat, check_snat,
  load_snats,
}
use firewall.Snats.Checked.{IsChecked, load_snats-IsChecked}
use firewall.Snats.Print.{
  InetNtop, append_chain, is_printed, print_snat, print_protocols, expand_snat,
}

append_chain-zone :
    (s : Snat) (i : ℕ)
    → s.src_zone ≡ some i
    → append_chain s ≡ codes "zone_" ++ s.src.name ++ codes "_postrouting"
unfolding append_chain
append_chain-zone s i h = ground arith

-- For a section that `fw3_load_snats` keeps and that has a zone: when that zone's chains are printed into
-- the IPv4 NAT table, where the zone concerns IPv4 and has a name of at most eleven bytes, the chain to
-- which the section's rules are appended is created.
pub load_snats-chain_exists :
    (state : State) (sections : List (Bool × Snat)) (n : ℕ) (s : Snat) (i : ℕ) (z : Zone)
    (reload : Bool)
    → get_elem? (load_snats state sections).snats n ≡ some s
    → s.src_zone ≡ some i
    → get_elem? (load_snats state sections).zones i ≡ some z
    → is_family z.family Family.v4 ≡ true
    → length z.name ≤ zone_maxnamelen
    → CreatesNat reload z (append_chain s)
load_snats-chain_exists state sections n s i z reload at pointer zone fam short =
    let zones = (load_snats state sections).zones in
    let checked : IsChecked zones s =
      All-get_elem? (IsChecked zones) (load_snats state sections).snats n s
        (load_snats-IsChecked state sections).1 at in
    let (given, (y, at', called, on)) = checked.chain i pointer in
    let same : y ≡ z = ground arith in
    let name : z.name ≡ s.src.name = ap (λ (w : Zone). w.name) (sym same) ∙ called in
    rw (append_chain-zone s i pointer, ← name)
      (postrouting_chain_exists reload z
        (subst (λ (w : Zone). has w.flags Family.v4 Flag.snat ≡ true) same on) fam short)

-- A section that names no zone, set or address.
pub record IsBare (s : Snat) : Type 0 where
  pub enabled : s.enabled ≡ true
  pub src : (s.src.set || s.src.invert) ≡ false
  pub ipset : s.ipset.set ≡ false
  pub ptr : s.ipset.ptr ≡ none
  pub ip_src : s.ip_src.family ≡ Family.any
  pub ip_dest : s.ip_dest.family ≡ Family.any
  pub ip_snat : s.ip_snat.family ≡ Family.any
  pub options : target_has_options (default_target s.target) s ≡ true

-- A bare section as the check leaves it.
abbrev pub filled : Snat → Snat
filled s = record s { src_zone = none; target = default_target s.target; proto = or_all s.proto }

resolve_none :
    (state : State) (s : Snat)
    → IsBare s
    → (resolve_zone state.zones s.src ≡ some none) × (resolve_ipset state s.ipset ≡ some s.ipset)
unfolding resolve_zone resolve_ipset
resolve_none state s b =
    let src = b.src in
    let ipset = b.ipset in
    let off : s.src.set ≡ false = ground arith in (rw off refl, rw ipset refl)

check_families-bare :
    (state : State) (s : Snat)
    → IsBare s
    → check_families state (record s { src_zone = none }) ≡ true
unfolding check_families
check_families-bare state s b = rw (b.ptr, b.ip_src, b.ip_dest, b.ip_snat) (ground arith)

check_snat-bare :
    (state : State) (s : Snat) → IsBare s → check_snat state s ≡ some (state, filled s)
unfolding check_snat finish_snat mark_source target_has_options resolve_zone
check_snat-bare state s b =
    let (zone, ipset) = resolve_none state s b in
    let src = b.src in
    let plain : s.src.invert ≡ false = ground arith in
    rw (b.enabled, plain, zone, ipset, check_families-bare state s b, b.options) refl

is_printed-bare :
    (exists : Ipset → Bool) (state : State) (s : Snat)
    → IsBare s
    → is_printed exists nat4 state (filled s) ≡ true
unfolding is_printed ipset_ready is_family
is_printed-bare exists state s b = rw (b.ptr, b.ip_src, b.ip_dest, b.ip_snat) refl

print_protocols_some :
    (inet_ntop : InetNtop) (s : Snat) (num : ℕ) (ps : List Protocol)
    → null (print_protocols inet_ntop nat4 s num (foreach ps)) ≡ false
unfolding print_protocols print_snat foreach
print_protocols_some inet_ntop s num [] = refl
print_protocols_some inet_ntop s num (p ∷ ps) = refl

expand_snat_printed :
    (inet_ntop : InetNtop) (exists : Ipset → Bool) (state : State) (s : Snat) (num : ℕ)
    → is_printed exists nat4 state s ≡ true
    → (expand_snat inet_ntop exists nat4 state s num).1
      ≡ print_protocols inet_ntop nat4 s num (foreach s.proto)
unfolding expand_snat
expand_snat_printed inet_ntop exists state s num h = rw h refl

-- A section that is kept with no zone, set or address is printed into the IPv4 NAT table, whatever its
-- option `family` says: `expand_snat` does not test it.
pub bare_snat_printed :
    (inet_ntop : InetNtop) (exists : Ipset → Bool) (state : State) (s : Snat) (num : ℕ)
    → IsBare s
    → (check_snat state s ≡ some (state, filled s))
      × (null (expand_snat inet_ntop exists nat4 state (filled s) num).1 ≡ false)
bare_snat_printed inet_ntop exists state s num b = (
  check_snat-bare state s b,
  rw (expand_snat_printed inet_ntop exists state (filled s) num (is_printed-bare exists state s b))
      (print_protocols_some inet_ntop (filled s) num (or_all s.proto)),
)
