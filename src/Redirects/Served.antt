-- ===== src/Redirects/Served.antt =====
-- The zones of the redirects that `fw3_load_redirects` keeps have the bits of the chains that they need.
use firewall.Common.{
  ℕ, ◌<◌, true, List, Option, none, some, ◌≡◌, ◌⊎◌, refl, ap, sym, arith, get_elem?, ◌∙◌, is_some,
  length,
}
use firewall.Common.CString.{CString}
use firewall.Options.Family
use firewall.Options.Flag
use firewall.Options.Types.{Zone}
use firewall.Options.Types.Config.{Redirect}
use firewall.Utils.Flags.{has, has-set_self}
use firewall.Zones.Lookup.{set_v4, get_elem?-modify_self}
use firewall.Zones.Grows.{
  Grows, Extends, Extends-refl, Extends-modify_by, Grows-set_v4, Grows-trans,
}
use firewall.Redirects.{set_reflection, reflects, masquerades, modify_at}

-- The zone that a pointer names has a bit in the IPv4 word.
abbrev pub HasBit : List Zone → Option ℕ → ℕ → Type 0
HasBit zones p t =
    (i : ℕ) × (p ≡ some i)
    × ((z : Zone) × (get_elem? zones i ≡ some z) × (has z.flags Family.v4 t ≡ true))

-- The zone that a pointer names has the name, unless its own is too long for the buffer.
abbrev pub Called : List Zone → Option ℕ → CString → Type 0
Called zones p name =
    (i : ℕ)
    → p ≡ some i
    → (z : Zone) × (get_elem? zones i ≡ some z) × (length z.name < 32 → z.name ≡ name)

-- What the zones owe a redirect.
pub record Served (zones : List Zone) (r : Redirect) : Type 0 where
  pub src : Called zones r.src_zone r.src.name
  pub dest : Called zones r.dest_zone r.dest.name
  pub target : (r.target ≡ Flag.dnat) ⊎ (r.target ≡ Flag.snat)
  pub dnat : r.target ≡ Flag.dnat → HasBit zones r.src_zone Flag.dnat
  pub snat : r.target ≡ Flag.snat → HasBit zones r.dest_zone Flag.snat
  pub helper :
      r.target ≡ Flag.dnat → is_some r.helper.ptr ≡ true → HasBit zones r.src_zone Flag.helper
  pub reflection :
      r.target ≡ Flag.dnat
      → reflects zones r ≡ true
      → (HasBit zones r.dest_zone Flag.accept)
        × (HasBit zones r.dest_zone Flag.dnat)
        × (HasBit zones r.dest_zone Flag.snat)

pub HasBit-Extends :
    (zones zones' : List Zone) (p : Option ℕ) (t : ℕ)
    → Extends zones zones'
    → HasBit zones p t
    → HasBit zones' p t
HasBit-Extends zones zones' p t x (i, e, (z, at, on)) =
    let (z', at', g) = x i z at in (i, e, (z', at', g.bits Family.v4 t on))

pub Called-Extends :
    (zones zones' : List Zone) (p : Option ℕ) (name : CString)
    → Extends zones zones'
    → Called zones p name
    → Called zones' p name
Called-Extends zones zones' p name x h i e =
    let (z, at, called) = h i e in
    let (z', at', g) = x i z at in
    let same : z'.name ≡ z.name = ap (λ (w : Zone). w.name) g.same in
    (z', at', λ short. same ∙ called (rw (← same) short))

masquerades-at :
    (zones : List Zone) (i : ℕ) (z : Zone)
    → get_elem? zones i ≡ some z
    → masquerades zones (some i) ≡ z.masq
masquerades-at zones i z at = ground arith

-- Growth changes no zone's option `masq`; `p` names a zone of the smaller store.
pub masquerades-Extends :
    (zones zones' : List Zone) (p : Option ℕ) (name : CString)
    → Extends zones zones'
    → Called zones p name
    → masquerades zones' p ≡ masquerades zones p
masquerades-Extends zones zones' none name x h = refl
masquerades-Extends zones zones' (some i) name x h =
    let (z, at, called) = h i refl in
    let (z', at', g) = x i z at in
    let same : z'.masq ≡ z.masq = ap (λ (w : Zone). w.masq) g.same in
    masquerades-at zones' i z' at' ∙ (same ∙ sym (masquerades-at zones i z at))

pub Served-Extends :
    (zones zones' : List Zone) (r : Redirect)
    → Extends zones zones'
    → Served zones r
    → Served zones' r
Served-Extends zones zones' r x h = record {
  src = Called-Extends zones zones' r.src_zone r.src.name x h.src;
  dest = Called-Extends zones zones' r.dest_zone r.dest.name x h.dest;
  target = h.target;
  dnat = λ e. HasBit-Extends zones zones' r.src_zone Flag.dnat x (h.dnat e);
  snat = λ e. HasBit-Extends zones zones' r.dest_zone Flag.snat x (h.snat e);
  helper = λ e e'. HasBit-Extends zones zones' r.src_zone Flag.helper x (h.helper e e');
  reflection = λ e on.
      let old : reflects zones r ≡ true =
        rw (← masquerades-Extends zones zones' r.src_zone r.src.name x h.src) on in
      let (a, d, s) = h.reflection e old in
      (
        HasBit-Extends zones zones' r.dest_zone Flag.accept x a,
        HasBit-Extends zones zones' r.dest_zone Flag.dnat x d,
        HasBit-Extends zones zones' r.dest_zone Flag.snat x s,
      );
}

-- A write that sets a bit, through a pointer to a zone of the list.
pub Extends-modify_at :
    (p : Option ℕ) (w : Zone → Zone) (zones : List Zone)
    → ((z : Zone) → Grows z (w z))
    → Extends zones (modify_at p w zones)
Extends-modify_at none w zones g = Extends-refl zones
Extends-modify_at (some i) w zones g = Extends-modify_by zones i w g

pub HasBit-modify_at :
    (p : Option ℕ) (w : Zone → Zone) (t : ℕ) (zones : List Zone) (name : CString)
    → is_some p ≡ true
    → Called zones p name
    → ((z : Zone) → has (w z).flags Family.v4 t ≡ true)
    → HasBit (modify_at p w zones) p t
HasBit-modify_at none w t zones name given h on = cc given
HasBit-modify_at (some i) w t zones name given h on =
    let (z, at, called) = h i refl in (i, refl, (w z, get_elem?-modify_self zones i w z at, on z))

pub has-set_v4 : (t : ℕ) (z : Zone) → has (set_v4 t z).flags Family.v4 t ≡ true
unfolding set_v4
has-set_v4 t z = has-set_self z.flags Family.v4 t

pub Grows-set_reflection : (z : Zone) → Grows z (set_reflection z)
unfolding set_reflection
Grows-set_reflection z = Grows-trans z (set_v4 Flag.accept z) _ (Grows-set_v4 Flag.accept z) (
    Grows-trans (set_v4 Flag.accept z) (set_v4 Flag.dnat (set_v4 Flag.accept z)) _
      (Grows-set_v4 Flag.dnat (set_v4 Flag.accept z))
      (Grows-set_v4 Flag.snat (set_v4 Flag.dnat (set_v4 Flag.accept z))))

pub has-set_reflection :
    (z : Zone)
    → (has (set_reflection z).flags Family.v4 Flag.accept ≡ true)
      × (has (set_reflection z).flags Family.v4 Flag.dnat ≡ true)
      × (has (set_reflection z).flags Family.v4 Flag.snat ≡ true)
unfolding set_reflection
has-set_reflection z =
    let one = set_v4 Flag.accept z in
    let two = set_v4 Flag.dnat one in
    let more = Grows-set_v4 Flag.snat two in
    (
      more.bits Family.v4 Flag.accept
          ((Grows-set_v4 Flag.dnat one).bits Family.v4 Flag.accept (has-set_v4 Flag.accept z)),
      more.bits Family.v4 Flag.dnat (has-set_v4 Flag.dnat one),
      has-set_v4 Flag.snat two,
    )
