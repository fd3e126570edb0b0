-- ===== src/Redirects/Exists.antt =====
-- The chains of the NAT rules of a redirect and of its reflection.
use firewall.Common.{
  ℕ, ◌≤◌, Bool, true, List, ◌++◌, Option, some, ◌≡◌, ap, ◌∙◌, subst, arith, get_elem?,
  All-get_elem?, length, ◌==◌, if◌then◌else◌, inl, inr,
}
use firewall.Common.CString.{CString, codes}
use firewall.Options.Family
use firewall.Options.Flag
use firewall.Options.Types.{Address, Zone}
use firewall.Options.Types.Config.{Redirect, State}
use firewall.Utils.Flags.{has, is_family}
use firewall.Zones.ChainNames.{zone_maxnamelen}
use firewall.Zones.Chains.Nat.{CreatesNat, postrouting_chain_exists, prerouting_chain_exists}
use firewall.Redirects.{load_redirects}
use firewall.Redirects.Served.{Served, HasBit, Called}
use firewall.Redirects.Loaded.{load_redirects-Served}
use firewall.Redirects.Print.{append_chain_nat}

-- The zone whose chain takes the NAT rules of a redirect.
abbrev pub chain_zone : Redirect → Option ℕ
chain_zone r = if r.target == Flag.dnat then r.src_zone else r.dest_zone

append_chain_nat-dnat :
    (r : Redirect)
    → r.target ≡ Flag.dnat
    → append_chain_nat r ≡ codes "zone_" ++ r.src.name ++ codes "_prerouting"
unfolding append_chain_nat
append_chain_nat-dnat r e = ground arith

append_chain_nat-snat :
    (r : Redirect)
    → r.target ≡ Flag.snat
    → append_chain_nat r ≡ codes "zone_" ++ r.dest.name ++ codes "_postrouting"
unfolding append_chain_nat
append_chain_nat-snat r e = ground arith

-- A zone under a pointer is the one that has the bit and the name.
module _ (zones : List Zone) (p : Option ℕ) (i : ℕ) (z : Zone) (at : p ≡ some i)
    (elem : get_elem? zones i ≡ some z) where
  pub HasBit-at : (t : ℕ) → HasBit zones p t → has z.flags Family.v4 t ≡ true
  HasBit-at t (j, e, (y, at', on)) =
      let same : i ≡ j = ground arith in
      let same' : y ≡ z = ground arith in
      subst (λ (w : Zone). has w.flags Family.v4 t ≡ true) same' on

  pub Called-at :
      (name : CString) → Called zones p name → length z.name ≤ zone_maxnamelen → z.name ≡ name
  Called-at name called short =
      let (y, at', named) = called i at in
      let same : z ≡ y = ground arith in
      ap (λ (w : Zone). w.name) same ∙ named (rw (← same) (omega arith))

module _ (zones : List Zone) (r : Redirect) (i : ℕ) (z : Zone) (reload : Bool)
    (served : Served zones r) (at : get_elem? zones i ≡ some z)
    (fam : is_family z.family Family.v4 ≡ true) (short : length z.name ≤ zone_maxnamelen) where
  dnat_chain_exists :
      r.target ≡ Flag.dnat → r.src_zone ≡ some i → CreatesNat reload z (append_chain_nat r)
  dnat_chain_exists e p =
      rw
        (
          append_chain_nat-dnat r e,
          ← Called-at zones r.src_zone i z p at r.src.name served.src short,
        )
        (prerouting_chain_exists reload z
          (HasBit-at zones r.src_zone i z p at Flag.dnat (served.dnat e)) fam short)

  snat_chain_exists :
      r.target ≡ Flag.snat → r.dest_zone ≡ some i → CreatesNat reload z (append_chain_nat r)
  snat_chain_exists e p =
      rw
        (
          append_chain_nat-snat r e,
          ← Called-at zones r.dest_zone i z p at r.dest.name served.dest short,
        )
        (postrouting_chain_exists reload z
          (HasBit-at zones r.dest_zone i z p at Flag.snat (served.snat e)) fam short)

  nat_chain_exists : chain_zone r ≡ some i → CreatesNat reload z (append_chain_nat r)
  nat_chain_exists p = elim served.target [
    | inl e ↦ dnat_chain_exists e (let q : r.src_zone ≡ some i = ground arith in q)
    | inr e ↦ snat_chain_exists e (let q : r.dest_zone ≡ some i = ground arith in q)
  ]

-- For a redirect that `fw3_load_redirects` keeps: when the chains of the zone that its NAT rules belong to
-- are printed into the IPv4 NAT table, where the zone concerns IPv4 and has a name of at most eleven
-- bytes, the chain to which the rules are appended is created.
pub load_redirects-chain_exists :
    (addrs : Zone → List Address) (state : State) (sections : List (Bool × Redirect)) (n : ℕ)
    (r : Redirect) (i : ℕ) (z : Zone) (reload : Bool)
    → get_elem? (load_redirects addrs state sections).redirects n ≡ some r
    → chain_zone r ≡ some i
    → get_elem? (load_redirects addrs state sections).zones i ≡ some z
    → is_family z.family Family.v4 ≡ true
    → length z.name ≤ zone_maxnamelen
    → CreatesNat reload z (append_chain_nat r)
load_redirects-chain_exists addrs state sections n r i z reload at p zone fam short =
    let zones = (load_redirects addrs state sections).zones in
    nat_chain_exists zones r i z reload
      (All-get_elem? (Served zones) (load_redirects addrs state sections).redirects n r
        (load_redirects-Served addrs state sections).1 at)
      zone fam short p
