-- ===== src/Zones/Grows.antt =====
-- How the store of zones grows while sections are loaded: no zone is lost, and no bit is cleared.
use firewall.Common.{ℕ, List, some, true, ◌≡◌, refl, ap, ◌∙◌, get_elem?, ℕ_discrete}
use firewall.Options.Family
use firewall.Options.Types.{Zone}
use firewall.Utils.Flags.{has, has-set_self, has-set_mono}
use firewall.Utils.Flags
use firewall.Zones.Lookup.{modify, set_both, set_v4, get_elem?-modify_self, get_elem?-modify_ne}

-- `b` has every bit of `a`, and else is `a`.
pub record Grows (a b : Zone) : Type 0 where
  pub bits : (f t : ℕ) → has a.flags f t ≡ true → has b.flags f t ≡ true
  pub same : b ≡ record a { flags = b.flags }

-- Each zone is still there, with at least its bits.
abbrev pub Extends : List Zone → List Zone → Type 0
Extends zones zones' =
    (i : ℕ) (z : Zone)
    → get_elem? zones i ≡ some z
    → (z' : Zone) × (get_elem? zones' i ≡ some z') × Grows z z'

pub Grows-refl : (z : Zone) → Grows z z
Grows-refl z = record { bits = λ f t h. h; same = refl }

pub Grows-trans : (a b c : Zone) → Grows a b → Grows b c → Grows a c
Grows-trans a b c g h = record {
  bits = λ f t on. h.bits f t (g.bits f t on);
  same = h.same ∙ ap {A = Zone} {B = Zone} (λ z. record z { flags = c.flags }) g.same;
}

Grows-set_both : (t : ℕ) (z : Zone) → Grows z (set_both t z)
unfolding set_both
Grows-set_both t z = record {
  bits = λ f a on.
      has-set_mono (Flags.set z.flags Family.v4 t) Family.v6 t f a
        (has-set_mono z.flags Family.v4 t f a on);
  same = refl;
}

pub Extends-refl : (zones : List Zone) → Extends zones zones
Extends-refl zones i z at = (z, at, Grows-refl z)

pub Extends-modify : (zones : List Zone) (j t : ℕ) → Extends zones (modify j (set_both t) zones)
Extends-modify zones j t i z at = elim (ℕ_discrete j i) [
  | yes e ↦
      (set_both t z, rw e (get_elem?-modify_self zones i (set_both t) z at), Grows-set_both t z)
  | no ne ↦ (z, get_elem?-modify_ne zones j i (set_both t) ne ∙ at, Grows-refl z)
]

pub Extends-trans :
    (zones zones' zones'' : List Zone)
    → Extends zones zones'
    → Extends zones' zones''
    → Extends zones zones''
Extends-trans zones zones' zones'' x y i z at =
    let (z', at', g) = x i z at in
    let (z'', at'', h) = y i z' at' in (z'', at'', Grows-trans z z' z'' g h)

pub Grows-set_v4 : (t : ℕ) (z : Zone) → Grows z (set_v4 t z)
unfolding set_v4
Grows-set_v4 t z = record { bits = λ f a on. has-set_mono z.flags Family.v4 t f a on; same = refl }

-- A write that grows one zone grows the store.
pub Extends-modify_by :
    (zones : List Zone) (j : ℕ) (w : Zone → Zone)
    → ((z : Zone) → Grows z (w z))
    → Extends zones (modify j w zones)
Extends-modify_by zones j w g i z at = elim (ℕ_discrete j i) [
  | yes e ↦ (w z, rw e (get_elem?-modify_self zones i w z at), g z)
  | no ne ↦ (z, get_elem?-modify_ne zones j i w ne ∙ at, Grows-refl z)
]

-- `set_both` sets the bit in both words.
pub has-set_both :
    (t : ℕ) (z : Zone)
    → (has (set_both t z).flags Family.v4 t ≡ true) × (has (set_both t z).flags Family.v6 t ≡ true)
unfolding set_both
has-set_both t z = (
  has-set_mono (Flags.set z.flags Family.v4 t) Family.v6 t Family.v4 t
      (has-set_self z.flags Family.v4 t),
  has-set_self (Flags.set z.flags Family.v4 t) Family.v6 t,
)
