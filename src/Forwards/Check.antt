-- ===== src/Forwards/Check.antt =====
-- `check_forward` and `fw3_load_forwards`, over the sections that the option parsers have filled in.
use firewall.Common.{
  Bool, true, false, not, ◌||◌, List, [], ◌∷◌, ◌++◌, Option, none, some, guard, ◌>>=◌, ◌>>◌, ℕ,
}
use firewall.Options.Flag
use firewall.Options.Types.{Zone}
use firewall.Options.Types.Config.{Forward, State}
use firewall.Zones.Lookup.{modify, set_both}
use firewall.Rules.Check.{resolve_zone}

-- The bit by which the destination learns that its ACCEPT chain is needed.
unfoldable pub mark_dest : List Zone → Option ℕ → List Zone
mark_dest zones none = zones
mark_dest zones (some d) = modify d (set_both Flag.accept) zones

unfoldable pub check_forward : State → Forward → Option (State × Forward)
check_forward state forward = do
  guard forward.enabled
  guard (not (forward.src.invert || forward.dest.invert))
  src_zone ← resolve_zone state.zones forward.src
  dest_zone ← resolve_zone state.zones forward.dest
  some (
    record state { zones = mark_dest state.zones dest_zone },
    record forward { src_zone = src_zone; dest_zone = dest_zone },
  )

-- One turn of either loop: a section that fails the check is freed. A section of the configuration is
-- checked even when its options are invalid; one from ubus is not, and `valid` is then false.
unfoldable pub load_forward : State → Bool × Forward → State
load_forward state (valid, forward) = elim valid [
  | false ↦ state
  | true ↦ elim (check_forward state forward) [
    | none ↦ state
    | some (state', forward') ↦ record state' { forwards = state'.forwards ++ forward' ∷ [] }
  ]
]

unfoldable pub load_sections : State → List (Bool × Forward) → State
load_sections state [] = state
load_sections state (s ∷ sections) = load_sections (load_forward state s) sections

-- `INIT_LIST_HEAD(&state->forwards)`, then the sections.
unfoldable pub load_forwards : State → List (Bool × Forward) → State
unfolding load_sections
load_forwards state sections = load_sections (record state { forwards = [] }) sections
