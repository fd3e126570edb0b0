-- ===== src/Rules/Load/Served.antt =====
-- Every loaded rule that a zone's verdict chain answers for has set the chain's bit.
use firewall.Common.{
  ◌||◌, is_some, ℕ, Bool, true, false, not, ◌&&◌, List, Option, none, some, ◌≡◌, ap, ◌∙◌, arith,
  get_elem?, ◌==◌, ltb, Option-cases, Bool-cases, inl, inr,
}
use firewall.Options.Family
use firewall.Options.Flag
use firewall.Options.Types.{Zone, Device}
use firewall.Options.Types.Config.{Rule, State}
use firewall.Utils.Flags.{has}
use firewall.Zones.Lookup.{lookup_zone, lookup_zone_sound, modify, set_both, get_elem?-modify_self}
use firewall.Rules.Check.{
  check_rule, resolve_zone, mark_zones, need_src_action_chain, to_src_target,
}
use firewall.Zones.Grows.{Extends, Extends-refl, Extends-modify, has-set_both}

pub Extends-mark_zones :
    (zones : List Zone) (s d : Option ℕ) (t : ℕ) → Extends zones (mark_zones zones s d t)
unfolding mark_zones
Extends-mark_zones zones s (some d) t = Extends-modify zones d t
Extends-mark_zones zones none none t = Extends-refl zones
Extends-mark_zones zones (some s) none t =
    elim (Bool-cases (need_src_action_chain zones (some s) t)) [
      | inl yes' ↦ rw yes' (Extends-modify zones s (to_src_target t))
      | inr no' ↦ rw no' (Extends-refl zones)
    ]

-- A pointer that the check left in a rule, and the zone that it names.
abbrev pub Named : List Zone → Device → ℕ → Type 0
Named zones dev i = (z : Zone) × (get_elem? zones i ≡ some z) × (z.name ≡ dev.name)

pub Named-Extends :
    (zones zones' : List Zone) (dev : Device) (i : ℕ)
    → Extends zones zones'
    → Named zones dev i
    → Named zones' dev i
Named-Extends zones zones' dev i x (z, at, called) =
    let (z', at', g) = x i z at in (z', at', ap (λ (w : Zone). w.name) g.same ∙ called)

pub resolve_zone-Named :
    (zones : List Zone) (dev : Device) (i : ℕ)
    → resolve_zone zones dev ≡ some (some i)
    → Named zones dev i
unfolding resolve_zone
resolve_zone-Named zones dev i h = elim (Option-cases (lookup_zone zones dev.name)) [
  | inl missing ↦ absurd (ground arith)
  | inr (j, found) ↦
      let e : j ≡ i = ground arith in lookup_zone_sound zones dev.name i (found ∙ ap some e)
]

pub resolve_zone_null :
    (zones : List Zone) (dev : Device)
    → resolve_zone zones dev ≡ some none
    → (dev.set && not dev.any) ≡ false
unfolding resolve_zone
resolve_zone_null zones dev h = ground arith

pub resolve_zone_set :
    (zones : List Zone) (dev : Device) (i : ℕ)
    → resolve_zone zones dev ≡ some (some i)
    → (dev.set && not dev.any) ≡ true
unfolding resolve_zone
resolve_zone_set zones dev i h = ground arith

-- What a successful check has done, as equations.
abbrev pub Checked : State → Rule → State → Rule → Type 0
Checked state r state' r' =
    (resolve_zone state.zones r'.src ≡ some r'.src_zone)
    × (resolve_zone state.zones r'.dest ≡ some r'.dest_zone)
    × (state'.zones ≡ mark_zones state.zones r'.src_zone r'.dest_zone r'.target)
    × (state'.rules ≡ state.rules)

pub check_rule-Checked :
    (state state' : State) (r r' : Rule)
    → check_rule state r ≡ some (state', r')
    → Checked state r state' r'
unfolding check_rule
check_rule-Checked state state' r r' h = ground arith

-- The test of `need_src_action_chain` on the zone itself.
abbrev pub logs : Zone → ℕ → Bool
logs z t = not (z.log == 0) && ltb Flag.accept t

-- A NOTRACK or HELPER rule names a source.
abbrev pub HasRawSource : Rule → Type 0
HasRawSource r =
    (not (r.target == Flag.notrack || r.target == Flag.helper) || is_some r.src_zone) ≡ true

pub check_rule-HasRawSource :
    (state state' : State) (r r' : Rule) → check_rule state r ≡ some (state', r') → HasRawSource r'
unfolding check_rule
check_rule-HasRawSource state state' r r' h = ground arith

-- The zones answer for a rule: its pointers are NULL exactly where it names no zone, and otherwise point to
-- zones of the names. A destination has the bit of the target; where there is none, a source that logs
-- has the bit of `fw3_to_src_target`. A rule of the raw table names a source.
pub record Served (zones : List Zone) (r : Rule) : Type 0 where
  pub source : (i : ℕ) → r.src_zone ≡ some i → Named zones r.src i
  pub source_set : (i : ℕ) → r.src_zone ≡ some i → (r.src.set && not r.src.any) ≡ true
  pub raw_source : HasRawSource r
  pub no_source : r.src_zone ≡ none → (r.src.set && not r.src.any) ≡ false
  pub dest :
      (i : ℕ)
      → r.dest_zone ≡ some i
      → (z : Zone) × (get_elem? zones i ≡ some z)
        × (z.name ≡ r.dest.name)
        × (has z.flags Family.v4 r.target ≡ true)
        × (has z.flags Family.v6 r.target ≡ true)
  pub dest_set : (i : ℕ) → r.dest_zone ≡ some i → (r.dest.set && not r.dest.any) ≡ true
  pub no_dest : r.dest_zone ≡ none → (r.dest.set && not r.dest.any) ≡ false
  pub src :
      (i : ℕ)
      → r.dest_zone ≡ none
      → r.src_zone ≡ some i
      → (z : Zone) × (get_elem? zones i ≡ some z)
        × (z.name ≡ r.src.name)
        × (logs z r.target ≡ true
            → (has z.flags Family.v4 (to_src_target r.target) ≡ true)
              × (has z.flags Family.v6 (to_src_target r.target) ≡ true))

mark_zones_logged :
    (zones : List Zone) (i t : ℕ) (z : Zone)
    → get_elem? zones i ≡ some z
    → logs z t ≡ true
    → mark_zones zones (some i) none t ≡ modify i (set_both (to_src_target t)) zones
unfolding mark_zones
mark_zones_logged zones i t z at on = ground arith

mark_zones_unlogged :
    (zones : List Zone) (i t : ℕ) (z : Zone)
    → get_elem? zones i ≡ some z
    → logs z t ≡ false
    → mark_zones zones (some i) none t ≡ zones
unfolding mark_zones
mark_zones_unlogged zones i t z at off = ground arith

module _ (zones : List Zone) (r : Rule) (i : ℕ) where
  pub served_dest :
      Named zones r.dest i
      → (z : Zone) × (get_elem? (modify i (set_both r.target) zones) i ≡ some z)
        × (z.name ≡ r.dest.name)
        × (has z.flags Family.v4 r.target ≡ true)
        × (has z.flags Family.v6 r.target ≡ true)
  served_dest (z, at, called) =
      let (on4, on6) = has-set_both r.target z in
      (
        set_both r.target z,
        get_elem?-modify_self zones i (set_both r.target) z at,
        unfold set_both in called,
        on4,
        on6,
      )

  pub served_src :
      Named zones r.src i
      → (z : Zone) × (get_elem? (mark_zones zones (some i) none r.target) i ≡ some z)
        × (z.name ≡ r.src.name)
        × (logs z r.target ≡ true
            → (has z.flags Family.v4 (to_src_target r.target) ≡ true)
              × (has z.flags Family.v6 (to_src_target r.target) ≡ true))
  served_src (z, at, called) = elim (Bool-cases (logs z r.target)) [
    | inl on ↦ (
      set_both (to_src_target r.target) z,
      rw (mark_zones_logged zones i r.target z at on)
          (get_elem?-modify_self zones i (set_both (to_src_target r.target)) z at),
      unfold set_both in called,
      λ _. has-set_both (to_src_target r.target) z,
    )
    | inr off ↦ (
      z,
      rw (mark_zones_unlogged zones i r.target z at off) at,
      called,
      λ on. absurd (cc (on, off)),
    )
  ]
