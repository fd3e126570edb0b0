-- ===== src/Zones/Lookup.antt =====
-- `fw3_lookup_zone`, and the store of zones that rules and forwards point into.
use firewall.Common.{
  ℕ, zero, suc, true, false, List, [], ◌∷◌, ◌≡◌, refl, ap, arith, Option, none, some, get_elem?,
  ◌≢◌, Bool-cases, Option-cases, inl, inr,
}
use firewall.Common.CString.{CString, streq, streq_iff}
use firewall.Options.Types.{Zone}
use firewall.Utils.Flags
use firewall.Options.Family

-- The zone with the name, as its index in the list: the first one.
unfoldable pub lookup_zone : List Zone → CString → Option ℕ
lookup_zone [] name = none
lookup_zone (z ∷ zones) name = elim (streq z.name name) [
  | true ↦ some 0
  | false ↦ elim (lookup_zone zones name) [ none ↦ none | some i ↦ some (suc i) ]
]

-- A write through a pointer to a zone.
unfoldable pub modify : ℕ → (Zone → Zone) → List Zone → List Zone
modify i f [] = []
modify zero f (z ∷ zones) = f z ∷ zones
modify (suc i) f (z ∷ zones) = z ∷ modify i f zones

-- `fw3_setbit(zone->flags[0], flag); fw3_setbit(zone->flags[1], flag);`
unfoldable pub set_both : ℕ → Zone → Zone
set_both flag z = record z { flags = Flags.set (Flags.set z.flags Family.v4 flag) Family.v6 flag }

-- `set(zone->flags, FW3_FAMILY_V4, flag)`.
unfoldable pub set_v4 : ℕ → Zone → Zone
set_v4 flag z = record z { flags = Flags.set z.flags Family.v4 flag }

-- A found zone is in the list, and has the name.
pub lookup_zone_sound :
    (zones : List Zone) (name : CString) (i : ℕ)
    → lookup_zone zones name ≡ some i
    → (z : Zone) × (get_elem? zones i ≡ some z) × (z.name ≡ name)
unfolding lookup_zone
lookup_zone_sound [] name i h = cc
lookup_zone_sound (z ∷ zones) name i h = elim (Bool-cases (streq z.name name)) [
  | inl same ↦ (z, ground arith, (streq_iff z.name name).0 same)
  | inr other ↦ elim (Option-cases (lookup_zone zones name)) [
    | inl missing ↦ absurd (ground arith)
    | inr (j, found) ↦
        let (y, at, called) = lookup_zone_sound zones name j found in
        let e : i ≡ suc j = ground arith in (y, rw e at, called)
  ]
]

pub get_elem?-modify_self :
    (zones : List Zone) (i : ℕ) (f : Zone → Zone) (z : Zone)
    → get_elem? zones i ≡ some z
    → get_elem? (modify i f zones) i ≡ some (f z)
unfolding modify
get_elem?-modify_self [] i f z h = cc
get_elem?-modify_self (y ∷ zones) zero f z h = ground arith
get_elem?-modify_self (y ∷ zones) (suc i) f z h = get_elem?-modify_self zones i f z h

pub get_elem?-modify_ne :
    (zones : List Zone) (i j : ℕ) (f : Zone → Zone)
    → i ≢ j
    → get_elem? (modify i f zones) j ≡ get_elem? zones j
unfolding modify
get_elem?-modify_ne [] i j f h = refl
get_elem?-modify_ne (y ∷ zones) zero zero f h = absurd (h refl)
get_elem?-modify_ne (y ∷ zones) zero (suc j) f h = refl
get_elem?-modify_ne (y ∷ zones) (suc i) zero f h = refl
get_elem?-modify_ne (y ∷ zones) (suc i) (suc j) f h =
    get_elem?-modify_ne zones i j f (λ e. h (ap suc e))
