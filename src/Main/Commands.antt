-- ===== src/Main/Commands.antt =====
-- `start`, `stop`, `reload` and `gc`.
use firewall.Common.{
  ℕ, Bool, true, false, not, ◌&&◌, List, [], ◌∷◌, ◌++◌, Option, none, some, ◌==◌, is_some,
  if◌then◌else◌,
}
use firewall.Options.Family
use firewall.Options.Table
use firewall.Options.Types.Config.{State}
use firewall.Iptables.{Handle}
use firewall.Defaults.Chains.{flush_all}
use firewall.Includes.{print_includes, run_includes}
use firewall.Ipsets.Commands.{create_ipsets}
use firewall.Ipsets.Reload.{destroy_ipsets}
use firewall.Zones.Rules.Jumps.{hotplug_zones}
use firewall.Main.{
  Env, Effect, table, ipset, include, hotplug, flush_conntrack, set_defaults, write_statefile,
  family_running, family_set, family_set_run,
}
use firewall.Main.Tables.{populate_table, clear_table}

-- The two states, what was done, and `rv == 0`.
pub record Program : Type 0 where
  pub run_state : Option State
  pub cfg_state : State
  pub effects : List Effect
  pub done : Bool

abbrev pub tables : List ℕ
tables = Table.filter ∷ Table.nat ∷ Table.mangle ∷ Table.raw ∷ []

abbrev pub handle : ℕ → ℕ → Handle
handle family t = record { family = family; table = t }

abbrev pub emit : Effect → Program → Program
emit e p = record p { effects = p.effects ++ e ∷ [] }

-- The loop over the tables that a family's rules are put into.
unfoldable pub populate : Env → Bool → Bool → ℕ → List ℕ → Program → Program
populate env commit reload family [] p = p
populate env commit reload family (t ∷ ts) p =
    let h = handle family t in
    let (cfg, trace) = populate_table env h reload p.cfg_state in
    populate env commit reload family ts
      (if env.opens h then record (emit (table h trace commit) p) { cfg_state = cfg } else p)

-- The loop over the tables that the run state's rules are taken from.
unfoldable pub clear : Env → Bool → ℕ → List ℕ → State → List Effect → State × List Effect
clear env reload family [] run effects = (run, effects)
clear env reload family (t ∷ ts) run effects =
    let h = handle family t in
    let (run', trace) = clear_table h reload run in
    let opened = env.opens h in
    clear env reload family ts (if opened then run' else run)
      (if opened then effects ++ table h trace true ∷ [] else effects)

-- `flush`, over the tables.
unfoldable pub flush_tables : Env → ℕ → List ℕ → List Effect → List Effect
flush_tables env family [] effects = effects
flush_tables env family (t ∷ ts) effects =
    let h = handle family t in
    flush_tables env family ts
      (if env.opens h then effects ++ table h (flush_all h) true ∷ [] else effects)

unfoldable pub set_running : ℕ → Bool → Program → Program
set_running family on p = record p {
  run_state = family_set_run family on p.run_state;
  cfg_state = family_set family on p.cfg_state;
}

-- `fw3_create_ipsets`, `fw3_print_includes` and the like, on the state of the configuration.
abbrev pub spawn_ipsets : Env → ℕ → Bool → Program → Program
spawn_ipsets env family reload p =
    emit
      (ipset (create_ipsets env.inet_ntop env.read env.exists env.pipe p.cfg_state family reload)) p

abbrev pub restore_includes : Env → ℕ → Bool → Program → Program
restore_includes env family reload p =
    emit (include (print_includes env.pipe p.cfg_state family reload)) p

abbrev pub disabled : ℕ → Program → Bool
disabled family p = family == Family.v6 && p.cfg_state.defaults.disable_ipv6

-- One turn of the loop of `start`; `print_family` is FW3_FAMILY_ANY but for the command `print`.
unfoldable pub start_family : Env → ℕ → ℕ → Program → Program
unfolding populate set_running
start_family env print_family family p =
    let printing = not (print_family == Family.any) in
    let spawned = if printing then p else spawn_ipsets env family false p in
    let filled = populate env (not printing) false family tables spawned in
    let included = if printing then filled else restore_includes env family false filled in
    if disabled family p
    then spawned
    else if printing && not (family == print_family)
    then spawned
    else if not printing && family_running p.run_state family
    then spawned
    else record (set_running family true included) { done = true }

abbrev plug : Bool → State → State × Effect
plug add state =
    let (zones, calls) = hotplug_zones add state.zones in
    (record state { zones = zones }, hotplug calls)

-- What `start` and `reload` do once a family is up.
unfoldable pub finish : Bool → Bool → Program → Program
finish printing reload p =
    let set = emit (set_defaults p.cfg_state) (emit (flush_conntrack p.run_state) p) in
    let (plugged, e) = plug true p.cfg_state in
    if not p.done
    then p
    else if printing
    then set
    else emit (write_statefile plugged)
        (record (emit e (emit (include (run_includes p.cfg_state reload)) set)) {
          cfg_state = plugged;
        })

unfoldable pub start : Env → ℕ → Program → Program
unfolding start_family finish
start env print_family p = finish (not (print_family == Family.any)) false (
    start_family env print_family Family.v6
      (start_family env print_family Family.v4 (record p { done = false })))

-- `if (complete) ... else if (run_state) ...`, over the tables.
unfoldable pub stop_tables : Env → Bool → ℕ → Program → Program
unfolding clear flush_tables
stop_tables env true family p = record p { effects = flush_tables env family tables p.effects }
stop_tables env false family p = elim p.run_state [
  | none ↦ p
  | some run ↦
      let (run', effects) = clear env false family tables run p.effects in
      record p { run_state = some run'; effects = effects }
]

-- One turn of the loop of `stop`.
unfoldable pub stop_family : Env → Bool → ℕ → Program → Program
unfolding stop_tables set_running
stop_family env complete family p =
    if not complete && not (family_running p.run_state family)
    then p
    else record (set_running family false (stop_tables env complete family p)) { done = true }

-- `fw3_hotplug_zones(run_state, false)`.
unfoldable pub unplug : Program → Program
unplug p = elim p.run_state [
  | none ↦ p
  | some run ↦ let (run', e) = plug false run in record (emit e p) { run_state = some run' }
]

unfoldable pub destroy_all : Env → Program → Program
destroy_all env p = elim p.run_state [
  | none ↦ p
  | some run ↦
      emit (ipset (destroy_ipsets env.pipe run Family.v6 false))
        (emit (ipset (destroy_ipsets env.pipe run Family.v4 false)) p)
]

unfoldable pub save_run : Program → Program
save_run p = elim p.run_state [
  | none ↦ p
  | some run ↦ if p.done then emit (write_statefile run) p else p
]

-- What `stop` does behind its loop.
unfoldable pub stop_rest : Env → Bool → Program → Program
unfolding destroy_all save_run
stop_rest env complete p =
    let destroyed = destroy_all env p in
    save_run (if complete then emit (flush_conntrack none) destroyed else destroyed)

-- `stop`, with `print_family` FW3_FAMILY_ANY.
unfoldable pub stop : Env → Bool → Program → Program
unfolding unplug stop_family stop_rest
stop env complete p =
    if not complete && not (is_some p.run_state)
    then record p { done = false }
    else stop_rest env complete (
        stop_family env complete Family.v6
          (stop_family env complete Family.v4 (unplug (record p { done = false }))))
