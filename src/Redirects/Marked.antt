-- ===== src/Redirects/Marked.antt =====
-- What `check_redirect` writes into the zones of a DNAT section.
use firewall.Common.{
  ℕ, Bool, true, false, ◌||◌, List, Option, none, some, ◌≡◌, refl, ap, sym, arith, get_elem?, ◌∙◌,
  is_some, find_index, Option-cases, Bool-cases, inl, inr, if◌then◌else◌,
}
use firewall.Common.CString.{CString, snprintf, snprintf_fits}
use firewall.Options.Family
use firewall.Options.Flag
use firewall.Options.Types.{Address, Device, Zone}
use firewall.Options.Types.Config.{Redirect}
use firewall.Utils.Flags.{has}
use firewall.Zones.Lookup.{set_v4}
use firewall.Zones.Grows.{Grows, Extends, Extends-refl, Extends-trans, Grows-set_v4}
use firewall.Redirects.{
  resolve_dest, place, set_reflection, reflects, modify_at, mark_dnat, check_local, has_addr,
}
use firewall.Redirects.Served.{
  HasBit, Called, HasBit-Extends, Called-Extends, Extends-modify_at, HasBit-modify_at, has-set_v4,
  Grows-set_reflection,
}

-- A write under a test.
abbrev when : Bool → Option ℕ → (Zone → Zone) → List Zone → List Zone
when on p w zones = if on then modify_at p w zones else zones

Extends-when :
    (on : Bool) (p : Option ℕ) (w : Zone → Zone) (zones : List Zone)
    → ((z : Zone) → Grows z (w z))
    → Extends zones (when on p w zones)
Extends-when true p w zones g = Extends-modify_at p w zones g
Extends-when false p w zones g = Extends-refl zones

module _ (zones : List Zone) (r : Redirect) where
  abbrev opened : List Zone
  opened = modify_at r.src_zone (set_v4 Flag.dnat) zones

  abbrev reflected : List Zone
  reflected = when (reflects zones r) r.dest_zone set_reflection opened

  abbrev marked : List Zone
  marked = when (is_some r.helper.ptr) r.src_zone (set_v4 Flag.helper) reflected

  mark_dnat-eq : mark_dnat zones r ≡ marked
  unfolding mark_dnat
  mark_dnat-eq = refl

  Extends-opened : Extends zones opened
  Extends-opened = Extends-modify_at r.src_zone (set_v4 Flag.dnat) zones (Grows-set_v4 Flag.dnat)

  Extends-reflected : Extends opened reflected
  Extends-reflected =
      Extends-when (reflects zones r) r.dest_zone set_reflection opened Grows-set_reflection

  Extends-marked : Extends reflected marked
  Extends-marked =
      Extends-when (is_some r.helper.ptr) r.src_zone (set_v4 Flag.helper) reflected
        (Grows-set_v4 Flag.helper)

  Extends-behind : Extends opened marked
  Extends-behind = Extends-trans opened reflected marked Extends-reflected Extends-marked

  pub Extends-mark_dnat : Extends zones (mark_dnat zones r)
  Extends-mark_dnat =
      rw mark_dnat-eq (Extends-trans zones opened marked Extends-opened Extends-behind)

  -- The source has the bit of its prerouting chain.
  pub mark_dnat-dnat :
      is_some r.src_zone ≡ true
      → Called zones r.src_zone r.src.name
      → HasBit (mark_dnat zones r) r.src_zone Flag.dnat
  mark_dnat-dnat given called = rw mark_dnat-eq (
      HasBit-Extends opened marked r.src_zone Flag.dnat Extends-behind (
        HasBit-modify_at r.src_zone (set_v4 Flag.dnat) Flag.dnat zones r.src.name given called
          (has-set_v4 Flag.dnat)))

  -- With a helper, the source has the bit of its helper chain.
  pub mark_dnat-helper :
      is_some r.src_zone ≡ true
      → Called zones r.src_zone r.src.name
      → is_some r.helper.ptr ≡ true
      → HasBit (mark_dnat zones r) r.src_zone Flag.helper
  mark_dnat-helper given called on =
      let before = Extends-trans zones opened reflected Extends-opened Extends-reflected in
      rw (mark_dnat-eq, on)
        (HasBit-modify_at r.src_zone (set_v4 Flag.helper) Flag.helper reflected r.src.name given
          (Called-Extends zones reflected r.src_zone r.src.name before called)
          (has-set_v4 Flag.helper))

  -- With reflection, the destination has the bits of the chains that the reflection uses.
  pub mark_dnat-reflection :
      is_some r.dest_zone ≡ true
      → Called zones r.dest_zone r.dest.name
      → reflects zones r ≡ true
      → (t : ℕ) → ((z : Zone) → has (set_reflection z).flags Family.v4 t ≡ true)
      → HasBit (mark_dnat zones r) r.dest_zone t
  mark_dnat-reflection given called on t bit = rw mark_dnat-eq (
      HasBit-Extends reflected marked r.dest_zone t Extends-marked (
        rw on (
          HasBit-modify_at r.dest_zone set_reflection t opened r.dest.name given
            (Called-Extends zones opened r.dest_zone r.dest.name Extends-opened called) bit)))

resolve_dest-at :
    (addrs : Zone → List Address) (zones : List Zone) (addr : Address) (i : ℕ) (name : CString)
    → resolve_dest addrs zones addr ≡ some (i, name)
    → (z : Zone) × (get_elem? zones i ≡ some z) × (z.name ≡ name)
unfolding resolve_dest
resolve_dest-at addrs zones addr i name h =
    elim (Option-cases (find_index (λ z. has_addr addr (addrs z)) zones)) [
      | inl missing ↦ absurd (ground arith)
      | inr (j, found) ↦ elim (Option-cases (get_elem? zones j)) [
        | inl missing ↦ absurd (ground arith)
        | inr (z, at) ↦
            let e : j ≡ i = ground arith in
            let e' : z.name ≡ name = ground arith in (z, ap (get_elem? zones) (sym e) ∙ at, e')
      ]
    ]

abbrev local_of : Redirect → Redirect
local_of r = record r { local = check_local r }

-- The destination that `resolve_dest` gives.
abbrev moved : Redirect → ℕ → CString → Redirect
moved r i name = record (local_of r) {
  dest = record r.dest { set = true; name = snprintf 32 name };
  dest_zone = some i;
}

place_given :
    (addrs : Zone → List Address) (zones : List Zone) (r : Redirect)
    → (check_local r || r.dest.set) ≡ true
    → place addrs zones r ≡ local_of r
unfolding place
place_given addrs zones r h = rw h refl

place_missing :
    (addrs : Zone → List Address) (zones : List Zone) (r : Redirect)
    → (check_local r || r.dest.set) ≡ false
    → resolve_dest addrs zones r.ip_redir ≡ none
    → place addrs zones r ≡ local_of r
unfolding place
place_missing addrs zones r h h' = rw (h, h') refl

place_found :
    (addrs : Zone → List Address) (zones : List Zone) (r : Redirect) (i : ℕ) (name : CString)
    → (check_local r || r.dest.set) ≡ false
    → resolve_dest addrs zones r.ip_redir ≡ some (i, name)
    → place addrs zones r ≡ moved r i name
unfolding place
place_found addrs zones r i name h h' = rw (h, h') refl

-- What `place` changes of a redirect: its destination is still a zone of the list, under its name.
pub place-Called :
    (addrs : Zone → List Address) (zones : List Zone) (r : Redirect)
    → Called zones r.dest_zone r.dest.name
    → (l : Bool) × (d : Device) × (p : Option ℕ) × (place addrs zones r
        ≡ record r { local = l; dest = d; dest_zone = p })
      × Called zones p d.name
place-Called addrs zones r called = elim (Bool-cases (check_local r || r.dest.set)) [
  | inl given ↦ (check_local r, r.dest, r.dest_zone, place_given addrs zones r given, called)
  | inr open' ↦ elim (Option-cases (resolve_dest addrs zones r.ip_redir)) [
    | inl missing ↦
        (check_local r, r.dest, r.dest_zone, place_missing addrs zones r open' missing, called)
    | inr ((i, name), found) ↦
        let (z, at, same) = resolve_dest-at addrs zones r.ip_redir i name found in
        (
          check_local r,
          record r.dest { set = true; name = snprintf 32 name },
          some i,
          place_found addrs zones r i name open' found,
          λ j e.
              let e' : i ≡ j = ground arith in
              (
                z,
                ap (get_elem? zones) (sym e') ∙ at,
                λ short. same ∙ sym (snprintf_fits 32 name (rw (← same) short)),
              ),
        )
  ]
]
