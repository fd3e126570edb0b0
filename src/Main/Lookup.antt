-- ===== src/Main/Lookup.antt =====
-- `lookup_network`, `lookup_device` and `lookup_zone` of main.c, as the lines that they print, and whether they
-- return 0.
use firewall.Common.{
  ℕ, zero, suc, ◌<◌, Bool, true, false, ◌&&◌, List, [], ◌∷◌, map, Option, none, some, ◌≡◌, ◌⊎◌,
  refl, arith, get_elem?, All, if◌then◌else◌, Bool-cases, inl, inr,
}
use firewall.Common.CString.{CString, streq}
use firewall.Options.Types.{Device, Zone}
use firewall.Zones.Load.{has_device}

-- The name of the first zone with a device of the name in its list.
unfoldable pub lookup_in : (Zone → List Device) → List Zone → CString → Option CString
unfolding has_device
lookup_in get [] name = none
lookup_in get (z ∷ zones) name =
    if has_device name (get z) then some z.name else lookup_in get zones name

unfoldable pub lookup_network : List Zone → CString → Option CString
unfolding lookup_in
lookup_network zones net = lookup_in (λ z. z.networks) zones net

unfoldable pub lookup_device : List Zone → CString → Option CString
unfolding lookup_in
lookup_device zones dev = lookup_in (λ z. z.devices) zones dev

-- `lookup_zone`: with no device, all those of the first zone of the name; with one, its name, if a zone
-- of the name has it.
unfoldable pub lookup_zone : List Zone → CString → Option CString → List CString × Bool
lookup_zone [] zone device = ([], false)
lookup_zone (z ∷ zones) zone none =
    if streq z.name zone
    then (map (λ (d : Device). d.name) z.devices, true)
    else lookup_zone zones zone none
lookup_zone (z ∷ zones) zone (some device) =
    if streq z.name zone && has_device device z.devices
    then (device ∷ [], true)
    else lookup_zone zones zone (some device)

-- A zone of the list has the device, and none before it.
abbrev pub IsFirst : (Zone → List Device) → List Zone → CString → CString → Type 0
IsFirst get zones name answer =
    (i : ℕ) × (z : Zone) × (get_elem? zones i ≡ some z)
    × (has_device name (get z) ≡ true)
    × (z.name ≡ answer)
    × ((j : ℕ) (y : Zone) → j < i → get_elem? zones j ≡ some y → has_device name (get y) ≡ false)

-- No zone of the list has it.
abbrev pub IsAbsent : (Zone → List Device) → List Zone → CString → Type 0
IsAbsent get zones name = All (λ (z : Zone). has_device name (get z) ≡ false) zones

earlier :
    (get : Zone → List Device) (name : CString) (z : Zone) (zones : List Zone) (i : ℕ)
    → has_device name (get z) ≡ false
    → ((j : ℕ) (y : Zone) → j < i → get_elem? zones j ≡ some y → has_device name (get y) ≡ false)
    → (j : ℕ) (y : Zone) → j < suc i
    → get_elem? (z ∷ zones) j ≡ some y
    → has_device name (get y) ≡ false
earlier get name z zones i off h zero y lt at = let e : z ≡ y = ground arith in rw (← e) off
earlier get name z zones i off h (suc j) y lt at = h j y (omega arith) at

lookup_in-cases :
    (get : Zone → List Device) (zones : List Zone) (name : CString)
    → ((lookup_in get zones name ≡ none) × IsAbsent get zones name)
      ⊎ ((answer : CString) × (lookup_in get zones name ≡ some answer)
          × IsFirst get zones name answer)
lookup_in-cases get [] name = inl (unfold lookup_in in refl, tt)
lookup_in-cases get (z ∷ zones) name = elim (Bool-cases (has_device name (get z))) [
  | inl on ↦ inr (
    z.name,
    unfold lookup_in in rw on refl,
    (0, z, refl, on, refl, λ j y lt at. absurd (omega arith)),
  )
  | inr off ↦
      let skip : lookup_in get (z ∷ zones) name ≡ lookup_in get zones name =
        unfold lookup_in in rw off refl in
      elim (lookup_in-cases get zones name) [
        | inl (e, absent) ↦ inl (rw skip e, (off, absent))
        | inr (answer, e, (i, y, at, has, called, before)) ↦
            inr (
              answer,
              rw skip e,
              (suc i, y, at, has, called, earlier get name z zones i off before),
            )
      ]
]

-- `lookup_network` finds nothing exactly where no zone has the network; otherwise it prints the name of
-- a zone that has it, before which no zone has it.
pub lookup_network-cases :
    (zones : List Zone) (net : CString)
    → ((lookup_network zones net ≡ none) × IsAbsent (λ z. z.networks) zones net)
      ⊎ ((answer : CString) × (lookup_network zones net ≡ some answer)
          × IsFirst (λ z. z.networks) zones net answer)
unfolding lookup_network
lookup_network-cases zones net = lookup_in-cases (λ z. z.networks) zones net
