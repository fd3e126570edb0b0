-- ===== src/Main/Stopped.antt =====
-- After `stop` no family runs.
use firewall.Common.{
  ℕ, ◌<◌, Bool, true, false, not, ◌&&◌, List, [], ◌∷◌, some, ◌≡◌, refl, sym, ap, ◌∙◌, arith,
  is_some, All, if◌then◌else◌, Bool-cases, Option-cases, inl, inr,
}
use firewall.Options.Family
use firewall.Options.Types.{Defaults}
use firewall.Options.Types.Config.{State}
use firewall.Utils.Flags.{Flags, has, has-del}
use firewall.Utils.Flags
use firewall.Iptables.{Handle}
use firewall.Defaults.Chains.{flush_rules}
use firewall.Rules.Print.Targets.{IsOpenFamily}
use firewall.Main.{Env, Effect, family_running, family_set, family_set_run}
use firewall.Main.Tables.{clear_table}
use firewall.Main.Commands.{
  Program, stop, stop_family, stop_tables, set_running, unplug, destroy_all, save_run, stop_rest,
  clear, tables, handle,
}

has-del_off :
    (x : Flags) (f a g b : ℕ)
    → a < 32
    → b < 32
    → has x g b ≡ false
    → has (Flags.del x f a) g b ≡ false
has-del_off x f a g b ha hb off = ground (arith, has-del x f a g b ha hb)

has-del_self : (x : Flags) (f : ℕ) → f < 32 → has (Flags.del x f f) f f ≡ false
has-del_self x f small = ground (arith, has-del x f f f f small small)

flush_rules_off :
    (h : Handle) (reload : Bool) (d : Defaults) (g : ℕ)
    → h.table < 32
    → g < 32
    → has d.flags g g ≡ false
    → has (flush_rules h reload d).0.flags g g ≡ false
unfolding flush_rules
flush_rules_off h reload d g small small' off = elim (Bool-cases (has d.flags h.family h.table)) [
  | inl on ↦ rw on (has-del_off d.flags h.family h.table g g small small' off)
  | inr none' ↦ rw none' off
]

clear_table_off :
    (h : Handle) (reload : Bool) (s : State) (g : ℕ)
    → h.table < 32
    → g < 32
    → family_running (some s) g ≡ false
    → family_running (some (clear_table h reload s).0) g ≡ false
unfolding clear_table family_running
clear_table_off h reload s g small small' off =
    flush_rules_off h reload s.defaults g small small' off

clear_off :
    (env : Env) (reload : Bool) (f g : ℕ) (ts : List ℕ) (s : State) (effects : List Effect)
    → g < 32
    → All (λ (t : ℕ). t < 32) ts
    → family_running (some s) g ≡ false
    → family_running (some (clear env reload f ts s effects).0) g ≡ false
unfolding clear
clear_off env reload f g [] s effects small all off = off
clear_off env reload f g (t ∷ ts) s effects small all off =
    let h : Handle = handle f t in
    clear_off env reload f g ts (if env.opens h then (clear_table h reload s).0 else s) _ small
      all.1
      (elim (Bool-cases (env.opens h)) [
        | inl open' ↦ rw open' (clear_table_off h reload s g all.0 small off)
        | inr shut ↦ rw shut off
      ])

set_running_off :
    (f : ℕ) (p : Program) → f < 32 → family_running (set_running f false p).run_state f ≡ false
unfolding set_running family_set_run family_running family_set
set_running_off f p small = elim (Option-cases p.run_state) [
  | inl e ↦ rw e refl
  | inr (s, e) ↦ rw e (has-del_self s.defaults.flags f small)
]

set_running_keeps :
    (f g : ℕ) (p : Program)
    → f < 32
    → g < 32
    → family_running p.run_state g ≡ false
    → family_running (set_running f false p).run_state g ≡ false
unfolding set_running family_set_run family_running family_set
set_running_keeps f g p small small' off = elim (Option-cases p.run_state) [
  | inl e ↦ rw e refl
  | inr (s, e) ↦
      let old : has s.defaults.flags g g ≡ false = ap (λ r. family_running r g) (sym e) ∙ off in
      rw e (has-del_off s.defaults.flags f f g g small small' old)
]

stop_tables_off :
    (env : Env) (complete : Bool) (f g : ℕ) (p : Program)
    → g < 32
    → family_running p.run_state g ≡ false
    → family_running (stop_tables env complete f p).run_state g ≡ false
unfolding stop_tables
stop_tables_off env true f g p small off = off
stop_tables_off env false f g p small off = elim (Option-cases p.run_state) [
  | inl e ↦ unfold family_running in rw e refl
  | inr (s, e) ↦
      let old : family_running (some s) g ≡ false = ap (λ r. family_running r g) (sym e) ∙ off in
      rw e (clear_off env false f g tables s p.effects small (omega arith) old)
]

-- The family of a turn is off behind it.
stop_family_off :
    (env : Env) (complete : Bool) (f : ℕ) (p : Program)
    → f < 32
    → family_running (stop_family env complete f p).run_state f ≡ false
unfolding stop_family
stop_family_off env complete f p small =
    elim (Bool-cases (not complete && not (family_running p.run_state f))) [
      | inl skip ↦ let off : family_running p.run_state f ≡ false = ground arith in rw skip off
      | inr go ↦ rw go (set_running_off f (stop_tables env complete f p) small)
    ]

stop_family_keeps :
    (env : Env) (complete : Bool) (f g : ℕ) (p : Program)
    → f < 32
    → g < 32
    → family_running p.run_state g ≡ false
    → family_running (stop_family env complete f p).run_state g ≡ false
unfolding stop_family
stop_family_keeps env complete f g p small small' off =
    elim (Bool-cases (not complete && not (family_running p.run_state f))) [
      | inl skip ↦ rw skip off
      | inr go ↦ rw go (
          set_running_keeps f g (stop_tables env complete f p) small small'
            (stop_tables_off env complete f g p small' off))
    ]

destroy_all_keeps : (env : Env) (p : Program) → (destroy_all env p).run_state ≡ p.run_state
unfolding destroy_all
destroy_all_keeps env p = ground arith

save_run_keeps : (p : Program) → (save_run p).run_state ≡ p.run_state
unfolding save_run
save_run_keeps p = ground arith

-- Behind the loop over the families.
abbrev both : Env → Bool → Program → Program
both env complete p = stop_family env complete Family.v6 (stop_family env complete Family.v4 p)

both_off :
    (env : Env) (complete : Bool) (p : Program) (f : ℕ)
    → IsOpenFamily f
    → family_running (both env complete p).run_state f ≡ false
both_off env complete p f (inl e) = rw e (
    stop_family_keeps env complete Family.v6 Family.v4 (stop_family env complete Family.v4 p)
      (omega arith) (omega arith) (stop_family_off env complete Family.v4 p (omega arith)))
both_off env complete p f (inr e) =
    rw e
      (stop_family_off env complete Family.v6 (stop_family env complete Family.v4 p) (omega arith))

stop_rest_keeps :
    (env : Env) (complete : Bool) (p : Program) → (stop_rest env complete p).run_state ≡ p.run_state
unfolding stop_rest
stop_rest_keeps env true p = save_run_keeps _ ∙ destroy_all_keeps env p
stop_rest_keeps env false p = save_run_keeps _ ∙ destroy_all_keeps env p

choose :
    (b : Bool) (x y : Program) (f : ℕ)
    → (b ≡ true → family_running x.run_state f ≡ false)
    → family_running y.run_state f ≡ false
    → family_running (if b then x else y).run_state f ≡ false
choose true x y f hx hy = hx refl
choose false x y f hx hy = hy

absent_off :
    (complete : Bool) (p : Program) (f : ℕ)
    → (not complete && not (is_some p.run_state)) ≡ true
    → family_running p.run_state f ≡ false
absent_off complete p f h = elim (Option-cases p.run_state) [
  | inl e ↦ unfold family_running in rw e refl
  | inr (s, e) ↦ absurd (ground arith)
]

-- After `stop` or `flush`, whatever ran before and whichever tables could be opened: by the run state no
-- family runs.
pub stop_off :
    (env : Env) (complete : Bool) (p : Program) (f : ℕ)
    → IsOpenFamily f
    → family_running (stop env complete p).run_state f ≡ false
unfolding stop
stop_off env complete p f open_family =
    let start_of : Program = unplug (record p { done = false }) in
    choose (not complete && not (is_some p.run_state)) (record p { done = false })
      (stop_rest env complete (both env complete start_of)) f (absent_off complete p f)
      (rw (stop_rest_keeps env complete (both env complete start_of))
        (both_off env complete start_of f open_family))
