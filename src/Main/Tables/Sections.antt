-- ===== src/Main/Tables/Sections.antt =====
-- What the population of a table leaves of the configuration's state: its sections.
use firewall.Common.{Bool, List, [], ◌∷◌, map, ◌≡◌, refl, ap, ap₂, not, Bool-cases, inl, inr}
use firewall.Options.Types.{Zone}
use firewall.Options.Types.Config.{State, Rule, Redirect, Snat, Forward, CtHelper}
use firewall.Utils.Flags.{is_family}
use firewall.Iptables.{Handle}
use firewall.Zones.Chains.{print_zone_chain, print_zone_chains, mark_table}
use firewall.Main.Tables.{print_chains}

-- A zone less its marks.
abbrev bare : Zone → Zone
bare z = record z { flags = record { v4 = 0; v6 = 0 } }

-- What a state says of the zones, rules, redirects, source NATs, forwards and helpers; the marks of the
-- zones aside.
pub record Sections : Type 0 where
  zones : List Zone
  rules : List Rule
  redirects : List Redirect
  snats : List Snat
  forwards : List Forward
  cthelpers : List CtHelper

unfoldable pub sections : State → Sections
sections s = record {
  zones = map bare s.zones;
  rules = s.rules;
  redirects = s.redirects;
  snats = s.snats;
  forwards = s.forwards;
  cthelpers = s.cthelpers;
}

bare-print_zone_chain :
    (h : Handle) (reload : Bool) (z : Zone) → bare (print_zone_chain h reload z).0 ≡ bare z
unfolding print_zone_chain mark_table
bare-print_zone_chain h reload z = elim (Bool-cases (not (is_family z.family h.family))) [
  | inl off ↦ rw off refl
  | inr on ↦ rw on refl
]

bare-print_zone_chains :
    (h : Handle) (reload : Bool) (zones : List Zone)
    → map bare (print_zone_chains h reload zones).0 ≡ map bare zones
unfolding print_zone_chains
bare-print_zone_chains h reload [] = refl
bare-print_zone_chains h reload (z ∷ zones) =
    ap₂ ◌∷◌ (bare-print_zone_chain h reload z) (bare-print_zone_chains h reload zones)

pub sections-print_chains :
    (h : Handle) (reload : Bool) (s : State) → sections (print_chains h reload s).0 ≡ sections s
unfolding print_chains sections
sections-print_chains h reload s =
    ap (λ zs. record (sections s) { zones = zs }) (bare-print_zone_chains h reload s.zones)
