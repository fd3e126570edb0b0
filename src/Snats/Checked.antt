-- ===== src/Snats/Checked.antt =====
-- What holds of each source NAT section that `fw3_load_snats` keeps.
use firewall.Common.{
  ℕ, Bool, true, false, not, ◌&&◌, ◌||◌, List, [], ◌∷◌, ◌++◌, Option, none, some, ◌≡◌, ◌⊎◌, refl,
  ap, arith, get_elem?, ◌∙◌, null, ◌==◌, Option-cases, inl, inr, All,
}
use firewall.Options.Family
use firewall.Options.Flag
use firewall.Options.Types.{Protocol, SetMatch, Zone}
use firewall.Options.Types.Config.{Snat, State}
use firewall.Utils.Flags.{has, has-set_self}
use firewall.Zones.Lookup.{set_v4, get_elem?-modify_self}
use firewall.Zones.Grows.{Extends, Extends-refl, Extends-modify_by, Grows-set_v4}
use firewall.Rules.Check.{resolve_zone, resolve_ipset}
use firewall.Rules.Load.Served.{resolve_zone-Named, resolve_zone_set}
use firewall.Sections.{Adds, each_section-Owes}
use firewall.Snats.{
  or_all, default_target, target_has_options, mark_source, finish_snat, check_snat, load_snat,
  load_snats,
}

-- The zone that a pointer names has the section's name and the bit of its source NAT chain.
abbrev pub HasChain : List Zone → Snat → Type 0
HasChain zones s =
    (i : ℕ)
    → s.src_zone ≡ some i
    → ((s.src.set && not s.src.any) ≡ true)
      × ((z : Zone) × (get_elem? zones i ≡ some z)
          × (z.name ≡ s.src.name)
          × (has z.flags Family.v4 Flag.snat ≡ true))

abbrev pub IsTarget : ℕ → Type 0
IsTarget t = (t ≡ Flag.accept) ⊎ ((t ≡ Flag.snat) ⊎ (t ≡ Flag.masquerade))

pub record IsChecked (zones : List Zone) (s : Snat) : Type 0 where
  pub enabled : s.enabled ≡ true
  pub plain : s.src.invert ≡ false
  pub target : IsTarget s.target
  -- SNAT has an address or a port, and no other target has either.
  pub options : (s.ip_snat.set || s.port_snat.set) ≡ (s.target == Flag.snat)
  pub proto : null s.proto ≡ false
  pub chain : HasChain zones s

pub IsChecked-Extends :
    (zones zones' : List Zone) (s : Snat)
    → Extends zones zones'
    → IsChecked zones s
    → IsChecked zones' s
IsChecked-Extends zones zones' s x h = record {
  enabled = h.enabled;
  plain = h.plain;
  target = h.target;
  options = h.options;
  proto = h.proto;
  chain = λ i e.
      let (given, (z, at, called, on)) = h.chain i e in
      let (z', at', g) = x i z at in
      (given, (z', at', ap (λ (w : Zone). w.name) g.same ∙ called, g.bits Family.v4 Flag.snat on));
}

Extends-mark_source : (zones : List Zone) (s : Option ℕ) → Extends zones (mark_source zones s)
unfolding mark_source
Extends-mark_source zones none = Extends-refl zones
Extends-mark_source zones (some s) =
    Extends-modify_by zones s (set_v4 Flag.snat) (Grows-set_v4 Flag.snat)

default_target-IsTarget : (t : ℕ) → IsTarget (default_target t)
unfolding default_target
default_target-IsTarget t = ground arith

target_has_options-eq :
    (t : ℕ) (s : Snat)
    → target_has_options t s ≡ true
    → (s.ip_snat.set || s.port_snat.set) ≡ (t == Flag.snat)
unfolding target_has_options
target_has_options-eq t s h = ground arith

or_all-null : (ps : List Protocol) → null (or_all ps) ≡ false
unfolding or_all
or_all-null [] = refl
or_all-null (p ∷ ps) = refl

-- A section with its pointers and its gaps filled.
abbrev kept : Snat → Option ℕ → SetMatch → Snat
kept s p m = record s {
  src_zone = p;
  ipset = m;
  target = default_target s.target;
  proto = or_all s.proto;
}

-- What a successful check has done, as equations.
abbrev Done : State → Snat → State → Snat → Type 0
Done state s state' s' =
    (s.enabled ≡ true)
    × (s.src.invert ≡ false)
    × (target_has_options (default_target s.target) s ≡ true)
    × ((p : Option ℕ) × (m : SetMatch) × (resolve_zone state.zones s.src ≡ some p)
        × (state' ≡ record state { zones = mark_source state.zones p })
        × (s' ≡ kept s p m))

finish_snat-Done :
    (state state' : State) (s s' : Snat)
    → finish_snat state s ≡ some (state', s')
    → (target_has_options (default_target s.target) s ≡ true)
      × (state' ≡ record state { zones = mark_source state.zones s.src_zone })
      × (s' ≡ record s { target = default_target s.target; proto = or_all s.proto })
unfolding finish_snat
finish_snat-Done state state' s s' h = ground arith

check_snat-found :
    (state state' : State) (s s' : Snat)
    → check_snat state s ≡ some (state', s')
    → (s.enabled ≡ true)
      × (s.src.invert ≡ false)
      × ((p : Option ℕ) × (m : SetMatch) × (resolve_zone state.zones s.src ≡ some p)
          × (finish_snat state (record s { src_zone = p; ipset = m }) ≡ some (state', s')))
unfolding check_snat
check_snat-found state state' s s' h = elim (Option-cases (resolve_zone state.zones s.src)) [
  | inl missing ↦ absurd (ground arith)
  | inr (p, zone) ↦ elim (Option-cases (resolve_ipset state s.ipset)) [
    | inl missing ↦ absurd (ground arith)
    | inr (m, set) ↦ (ground arith, ground arith, (p, m, zone, ground arith))
  ]
]

pub check_snat-Done :
    (state state' : State) (s s' : Snat)
    → check_snat state s ≡ some (state', s')
    → Done state s state' s'
unfolding target_has_options
check_snat-Done state state' s s' h =
    let (on, plain, (p, m, zone, rest)) = check_snat-found state state' s s' h in
    let (options, e, e') =
      finish_snat-Done state state' (record s { src_zone = p; ipset = m }) s' rest in
    (on, plain, options, (p, m, zone, e, e'))

mark_source-HasChain :
    (zones : List Zone) (s : Snat)
    → resolve_zone zones s.src ≡ some s.src_zone
    → HasChain (mark_source zones s.src_zone) s
unfolding mark_source
mark_source-HasChain zones s h i e =
    let found = h ∙ ap some e in
    let (z, at, called) = resolve_zone-Named zones s.src i found in
    (
      resolve_zone_set zones s.src i found,
      (
        set_v4 Flag.snat z,
        rw e (get_elem?-modify_self zones i (set_v4 Flag.snat) z at),
        unfold set_v4 in called,
        unfold set_v4 in has-set_self z.flags Family.v4 Flag.snat,
      ),
    )

pub load_snat_refused :
    (state : State) (s : Snat) → check_snat state s ≡ none → load_snat state (true, s) ≡ state
unfolding load_snat
load_snat_refused state s h = ground arith

pub load_snat_accepted :
    (state state' : State) (s s' : Snat)
    → check_snat state s ≡ some (state', s')
    → load_snat state (true, s) ≡ record state' { snats = state'.snats ++ s' ∷ [] }
unfolding load_snat
load_snat_accepted state state' s s' h = ground arith

abbrev snats_of : State → List Snat
snats_of state = state.snats

load_snat-Adds :
    (state : State) (s : Bool × Snat)
    → Adds snats_of IsChecked IsChecked-Extends state (load_snat state s)
unfolding load_snat
load_snat-Adds state (false, s) = inl refl
load_snat-Adds state (true, s) = elim (Option-cases (check_snat state s)) [
  | inl refused ↦ inl (load_snat_refused state s refused)
  | inr ((state', s'), checked) ↦
      let (on, plain, options, (p, m, zone, e, e')) = check_snat-Done state state' s s' checked in
      rw (load_snat_accepted state state' s s' checked, e, e')
        (inr (
          kept s p m,
          Extends-mark_source state.zones p,
          refl,
          record {
            enabled = on;
            plain = plain;
            target = default_target-IsTarget s.target;
            options = target_has_options-eq (default_target s.target) s options;
            proto = or_all-null s.proto;
            chain = mark_source-HasChain state.zones (kept s p m) zone;
          },
        ))
]

-- Whatever sections are read: after `fw3_load_snats` each section kept is enabled, names its source
-- without an inversion, has one of the targets ACCEPT, SNAT and MASQUERADE, an address or a port exactly if
-- it is SNAT, some protocol, and its zone, if it has one, is in the list and has the bit of its
-- postrouting chain. No zone is lost, and no bit of a zone is cleared.
pub load_snats-IsChecked :
    (state : State) (sections : List (Bool × Snat))
    → Extends state.zones (load_snats state sections).zones
      × All (IsChecked (load_snats state sections).zones) (load_snats state sections).snats
unfolding load_snats
load_snats-IsChecked state sections =
    each_section-Owes snats_of IsChecked IsChecked-Extends load_snat load_snat-Adds
      (record state { snats = [] }) sections refl
