-- ===== src/Rules/Load.antt =====
-- `fw3_load_rules`, over the sections that the option parsers have filled in, and the invariant by
-- which the chain that a rule jumps to is there when the rules are printed.
pub mod Served
pub mod Invariant
use firewall.Common.{Bool, true, false, List, [], ◌∷◌, ◌++◌, none, some}
use firewall.Options.Types.Config.{Rule, State}
use firewall.Rules.Check.{check_rule}

-- One turn of either loop: a section with invalid options or that fails the check is freed.
unfoldable pub load_rule : State → Bool × Rule → State
load_rule state (valid, rule) = elim valid [
  | false ↦ state
  | true ↦ elim (check_rule state rule) [
    | none ↦ state
    | some (state', rule') ↦ record state' { rules = state'.rules ++ rule' ∷ [] }
  ]
]

unfoldable pub load_sections : State → List (Bool × Rule) → State
load_sections state [] = state
load_sections state (s ∷ sections) = load_sections (load_rule state s) sections

-- `INIT_LIST_HEAD(&state->rules)`, then the sections.
unfoldable pub load_rules : State → List (Bool × Rule) → State
unfolding load_sections
load_rules state sections = load_sections (record state { rules = [] }) sections
