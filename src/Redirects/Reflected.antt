-- ===== src/Redirects/Reflected.antt =====
-- The chains of a redirect's reflection.
use firewall.Common.{
  ℕ, ◌≤◌, Bool, true, false, List, [], ◌∷◌, ◌++◌, some, ◌≡◌, refl, ap, arith, get_elem?, All,
  All-get_elem?, All-map, All-concat_map, All-concat_map-All, length, null, Bool-cases, inl, inr,
}
use firewall.Common.CString.{codes}
use firewall.Options.Family
use firewall.Options.Flag
use firewall.Options.Types.{Address, Device, Zone}
use firewall.Options.Types.Config.{Redirect, State}
use firewall.Utils.Flags.{is_family}
use firewall.Iptables.{IptCall, replace}
use firewall.Zones.ChainNames.{zone_maxnamelen}
use firewall.Zones.Chains.Nat.{nat4, CreatesNat, postrouting_chain_exists, prerouting_chain_exists}
use firewall.Snats.Print.{InetNtop}
use firewall.Redirects.{load_redirects, reflects}
use firewall.Redirects.Served.{Served}
use firewall.Redirects.Loaded.{load_redirects-Served}
use firewall.Redirects.Exists.{HasBit-at, Called-at}
use firewall.Redirects.Expand.{
  Turn, print_reflection, turns, reflection_zones, is_reflected, reflection_rules,
}

-- The call puts a rule into a NAT chain that the printing of the zone's chains creates.
abbrev pub LandsNat : Bool → Zone → IptCall → Type 0
LandsNat reload z (replace r c) = CreatesNat reload z c
LandsNat reload z _ = false ≡ true

turns-zone :
    (family : ℕ) (addrs : Zone → List Address) (zones : List Zone) (r : Redirect) (ext : Address)
    → null r.reflection_zones ≡ true
    → All (λ (t : Turn). t.zone ≡ r.dest) (turns family addrs zones r ext)
unfolding turns
turns-zone family addrs zones r ext h =
    let only : reflection_zones r ≡ r.dest ∷ [] = unfold reflection_zones in rw h refl in
    rw only (
      All-concat_map-All (λ (rz : Device). rz ≡ r.dest) (λ (t : Turn). t.zone ≡ r.dest) _
        (r.dest ∷ []) (refl, tt)
        (λ rz e.
          All-concat_map (λ (t : Turn). t.zone ≡ r.dest) _ _
            (λ int. All-map (λ (t : Turn). t.zone ≡ r.dest) _ r.proto (λ proto. e))))

-- Where the two chains of the destination exist, each turn's rules are put into them.
print_reflection-LandsNat :
    (inet_ntop : InetNtop) (r : Redirect) (num : ℕ) (reload : Bool) (z : Zone) (t : Turn)
    → CreatesNat reload z (codes "zone_" ++ r.dest.name ++ codes "_prerouting")
    → CreatesNat reload z (codes "zone_" ++ r.dest.name ++ codes "_postrouting")
    → t.zone ≡ r.dest
    → All (LandsNat reload z) (print_reflection inet_ntop nat4 r num t)
unfolding print_reflection
print_reflection-LandsNat inet_ntop r num reload z t pre post e =
    let name : t.zone.name ≡ r.dest.name = ap (λ (d : Device). d.name) e in
    (rw name pre, (rw name post, tt))

is_reflected-reflects :
    (zones : List Zone) (r : Redirect)
    → is_reflected zones r ≡ true
    → (r.target ≡ Flag.dnat) × (reflects zones r ≡ true)
unfolding is_reflected
is_reflected-reflects zones r h = ground arith

module _ (inet_ntop : InetNtop) (addrs : Zone → List Address) (state : State) (r : Redirect)
    (num i : ℕ) (z : Zone) (reload : Bool) (served : Served state.zones r)
    (p : r.dest_zone ≡ some i) (at : get_elem? state.zones i ≡ some z)
    (fam : is_family z.family Family.v4 ≡ true) (short : length z.name ≤ zone_maxnamelen)
    (only : null r.reflection_zones ≡ true) where
  reflection_rules-on :
      is_reflected state.zones r ≡ true
      → All (LandsNat reload z) (reflection_rules inet_ntop addrs nat4 state r num)
  unfolding reflection_rules
  reflection_rules-on on =
      let (e, ref) = is_reflected-reflects state.zones r on in
      let (accept, dnat, snat) = served.reflection e ref in
      let name = Called-at state.zones r.dest_zone i z p at r.dest.name served.dest short in
      let pre : CreatesNat reload z (codes "zone_" ++ r.dest.name ++ codes "_prerouting") =
        rw (← name) (
          prerouting_chain_exists reload z
            (HasBit-at state.zones r.dest_zone i z p at Flag.dnat dnat) fam short) in
      let post : CreatesNat reload z (codes "zone_" ++ r.dest.name ++ codes "_postrouting") =
        rw (← name) (
          postrouting_chain_exists reload z
            (HasBit-at state.zones r.dest_zone i z p at Flag.snat snat) fam short) in
      rw on (
        All-concat_map (LandsNat reload z) _ _ (λ ext.
          All-concat_map-All (λ (t : Turn). t.zone ≡ r.dest) (LandsNat reload z)
            (print_reflection inet_ntop nat4 r num) (turns Family.v4 addrs state.zones r ext)
            (turns-zone Family.v4 addrs state.zones r ext only)
            (λ t. print_reflection-LandsNat inet_ntop r num reload z t pre post)))

  reflection_rules-off :
      is_reflected state.zones r ≡ false
      → All (LandsNat reload z) (reflection_rules inet_ntop addrs nat4 state r num)
  unfolding reflection_rules
  reflection_rules-off off = rw off tt

  pub reflection_rules-LandsNat :
      All (LandsNat reload z) (reflection_rules inet_ntop addrs nat4 state r num)
  reflection_rules-LandsNat = elim (Bool-cases (is_reflected state.zones r)) [
    | inl on ↦ reflection_rules-on on
    | inr off ↦ reflection_rules-off off
  ]

-- For a redirect that `fw3_load_redirects` keeps, with a destination and no reflection zones of its own:
-- when the destination's chains are printed into the IPv4 NAT table, where it concerns IPv4 and has a
-- name of at most eleven bytes, each rule of the redirect's reflection is put into a chain that is
-- created.
pub load_redirects-reflection_exists :
    (inet_ntop : InetNtop) (addrs : Zone → List Address) (state : State)
    (sections : List (Bool × Redirect)) (n num : ℕ) (r : Redirect) (i : ℕ) (z : Zone)
    (reload : Bool)
    → get_elem? (load_redirects addrs state sections).redirects n ≡ some r
    → r.dest_zone ≡ some i
    → get_elem? (load_redirects addrs state sections).zones i ≡ some z
    → is_family z.family Family.v4 ≡ true
    → length z.name ≤ zone_maxnamelen
    → null r.reflection_zones ≡ true
    → All
        (LandsNat reload z)
        (reflection_rules inet_ntop addrs nat4 (load_redirects addrs state sections) r num)
load_redirects-reflection_exists inet_ntop addrs state sections n num r i z reload at p zone fam
      short only =
    let loaded = load_redirects addrs state sections in
    reflection_rules-LandsNat inet_ntop addrs loaded r num i z reload
      (All-get_elem? (Served loaded.zones) loaded.redirects n r
        (load_redirects-Served addrs state sections).1 at)
      p zone fam short only
