-- ===== src/Main/Reload.antt =====
-- `reload` and `gc`.
use firewall.Common.{ℕ, true, false, List, [], ◌∷◌, ◌++◌, none, some, if◌then◌else◌}
use firewall.Options.Family
use firewall.Ipsets.Reload.{destroy_ipsets, update_run_state}
use firewall.Main.{Env, Effect, gc_table, ipset, family_running}
use firewall.Main.Commands.{
  Program, tables, handle, emit, populate, clear, set_running, spawn_ipsets, restore_includes,
  disabled, unplug, start, finish,
}

-- What the run state leaves: its rules, and the sets that the configuration does not keep.
unfoldable pub clear_family : Env → ℕ → Program → Program
unfolding clear set_running
clear_family env family p = elim p.run_state [
  | none ↦ p
  | some run ↦
      let (cleared, effects) = clear env true family tables run p.effects in
      let updated = update_run_state family cleared p.cfg_state in
      set_running family false (
        emit (ipset (destroy_ipsets env.pipe updated family true))
          (record p { run_state = some updated; effects = effects }))
]

-- One turn of the loop of `reload`; the second half is the code behind the label `start`.
unfoldable pub reload_family : Env → ℕ → Program → Program
unfolding clear_family
reload_family env family p =
    let cleared = if family_running p.run_state family then clear_family env family p else p in
    let filled = populate env true true family tables (spawn_ipsets env family true cleared) in
    if disabled family cleared
    then cleared
    else record (set_running family true (restore_includes env family true filled)) { done = true }

unfoldable pub reload : Env → Program → Program
unfolding reload_family
reload env p = elim p.run_state [
  | none ↦ start env Family.any p
  | some run ↦ finish false true (
      reload_family env Family.v6
        (reload_family env Family.v4 (unplug (record p { done = false }))))
]

unfoldable pub gc_tables : Env → ℕ → List ℕ → List Effect → List Effect
gc_tables env family [] effects = effects
gc_tables env family (t ∷ ts) effects =
    let h = handle family t in
    gc_tables env family ts (if env.opens h then effects ++ gc_table h ∷ [] else effects)

unfoldable pub gc_family : Env → ℕ → Program → Program
unfolding gc_tables
gc_family env family p =
    if disabled family p then p else record p { effects = gc_tables env family tables p.effects }

unfoldable pub gc : Env → Program → Program
unfolding gc_family
gc env p = record (gc_family env Family.v6 (gc_family env Family.v4 p)) { done = true }
