-- ===== src/Snats.antt =====
-- snats.c: `check_snat` and `fw3_load_snats`, over the sections that the option parsers have filled in.
-- A section fails the check and is freed, or is left with its pointers resolved and its gaps filled.
pub mod Checked
pub mod Print
pub mod Exists
use firewall.Common.{
  ℕ, Bool, true, false, not, ◌&&◌, ◌||◌, List, [], ◌∷◌, ◌++◌, Option, none, some, ◌==◌, null,
  if◌then◌else◌, guard, ◌>>=◌, ◌>>◌,
}
use firewall.Options.Family
use firewall.Options.Flag
use firewall.Options.Types.{Protocol, Zone}
use firewall.Options.Types.Config.{Snat, State}
use firewall.Sections.{differs, zone_family, ipset_family, each_section}
use firewall.Zones.Lookup.{modify, set_v4}
use firewall.Rules.Check.{resolve_zone, resolve_ipset}

unfoldable pub check_families : State → Snat → Bool
check_families state r =
    r.family == Family.any
    || not (differs r.family (zone_family state.zones r.src_zone))
      && not (differs r.family (ipset_family state.ipsets r.ipset.ptr))
      && not (differs r.family r.ip_src.family)
      && not (differs r.family r.ip_dest.family)
      && not (differs r.family r.ip_snat.family)

-- A target that is missing or that a section cannot have becomes MASQUERADE.
unfoldable pub default_target : ℕ → ℕ
default_target t =
    if t == Flag.accept || t == Flag.snat || t == Flag.masquerade then t else Flag.masquerade

-- Only SNAT takes an address or a port, and it needs one.
unfoldable pub target_has_options : ℕ → Snat → Bool
target_has_options t snat =
    if t == Flag.snat
    then snat.ip_snat.set || snat.port_snat.set
    else not snat.ip_snat.set && not snat.port_snat.set

unfoldable pub mark_source : List Zone → Option ℕ → List Zone
mark_source zones none = zones
mark_source zones (some s) = modify s (set_v4 Flag.snat) zones

-- `fw3_parse_protocol(&snat->proto, "all", true)`.
abbrev all_protocols : List Protocol
all_protocols = record { any = true; invert = false; protocol = 0 } ∷ []

unfoldable pub or_all : List Protocol → List Protocol
or_all ps = if null ps then all_protocols else ps

-- The tests behind the look-ups.
unfoldable pub finish_snat : State → Snat → Option (State × Snat)
unfolding check_families default_target target_has_options mark_source or_all
finish_snat state snat = do
  guard (check_families state snat)
  let target = default_target snat.target
  guard (target_has_options target snat)
  some (
    record state { zones = mark_source state.zones snat.src_zone },
    record snat { target = target; proto = or_all snat.proto },
  )

unfoldable pub check_snat : State → Snat → Option (State × Snat)
unfolding finish_snat
check_snat state snat = do
  guard snat.enabled
  guard (not snat.src.invert)
  src_zone ← resolve_zone state.zones snat.src
  ipset ← resolve_ipset state snat.ipset
  finish_snat state (record snat { src_zone = src_zone; ipset = ipset })

-- One turn of either loop; `valid` tells whether the options were.
unfoldable pub load_snat : State → Bool × Snat → State
load_snat state (valid, snat) = elim valid [
  | false ↦ state
  | true ↦ elim (check_snat state snat) [
    | none ↦ state
    | some (state', snat') ↦ record state' { snats = state'.snats ++ snat' ∷ [] }
  ]
]

-- `INIT_LIST_HEAD(&state->snats)`, then the sections.
unfoldable pub load_snats : State → List (Bool × Snat) → State
unfolding load_snat
load_snats state sections = each_section load_snat (record state { snats = [] }) sections
