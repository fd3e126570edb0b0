-- ===== src/Main/Untouched.antt =====
-- What bringing up IPv4 leaves of IPv6.
use firewall.Common.{
  ℕ, Bool, true, false, List, [], ◌∷◌, Option, none, some, ◌≡◌, refl, ap, ◌∙◌, ◌==◌, ◌&&◌,
  if◌then◌else◌, Bool-cases, inl, inr,
}
use firewall.Options.Family
use firewall.Options.Types.{Defaults}
use firewall.Options.Types.Config.{State}
use firewall.Utils.Flags.{has}
use firewall.Utils.Flags
use firewall.Iptables.{Handle}
use firewall.Defaults.Chains.{print_default_chains, mark_features}
use firewall.Main.{Env, family_running, family_set, family_set_run}
use firewall.Main.Tables.{print_chains, populate_table}
use firewall.Main.Tables.Pairing.{Quiet-all_rules}
use firewall.Main.Tables.Sections.{sections}
use firewall.Main.Installed.{sections-populate}
use firewall.Main.Commands.{
  Program, populate, start_family, set_running, spawn_ipsets, restore_includes, tables, handle,
  disabled,
}

mark_features_disable :
    (h : Handle) (d : Defaults) → (mark_features h d).disable_ipv6 ≡ d.disable_ipv6
unfolding mark_features
mark_features_disable h d = refl

print_default_chains_disable :
    (h : Handle) (reload : Bool) (d : Defaults)
    → (print_default_chains h reload d).0.disable_ipv6 ≡ d.disable_ipv6
unfolding print_default_chains
print_default_chains_disable h reload d =
    elim (Bool-cases (h.family == Family.v6 && d.disable_ipv6)) [
      | inl off ↦ rw off refl
      | inr up ↦ rw up (mark_features_disable h d)
    ]

populate_table_disable :
    (env : Env) (h : Handle) (reload : Bool) (s : State)
    → (populate_table env h reload s).0.defaults.disable_ipv6 ≡ s.defaults.disable_ipv6
unfolding populate_table print_chains
populate_table_disable env h reload s =
    let chained : State = (print_chains h reload s).0 in
    ap (λ (d : Defaults). d.disable_ipv6) (Quiet-all_rules env h chained).defaults
    ∙ print_default_chains_disable h reload s.defaults

-- A command that has come so far has the run state, and the option `disable_ipv6`, that it began with.
record Same (p q : Program) : Type 0 where
  run : q.run_state ≡ p.run_state
  disable : q.cfg_state.defaults.disable_ipv6 ≡ p.cfg_state.defaults.disable_ipv6

populate-Same :
    (env : Env) (commit reload : Bool) (f : ℕ) (ts : List ℕ) (p q : Program)
    → Same p q
    → Same p (populate env commit reload f ts q)
unfolding populate
populate-Same env commit reload f [] p q h = h
populate-Same env commit reload f (t ∷ ts) p q h =
    populate-Same env commit reload f ts p _ (elim (Bool-cases (env.opens (handle f t))) [
      | inl open' ↦ rw open' (record {
        run = h.run;
        disable = populate_table_disable env (handle f t) reload q.cfg_state ∙ h.disable;
      })
      | inr shut ↦ rw shut h
    ])

family_set_run_other :
    (r : Option State)
    → family_running (family_set_run Family.v4 true r) Family.v6 ≡ family_running r Family.v6
unfolding family_set_run family_set family_running has Flags.set Flags.word
family_set_run_other none = refl
family_set_run_other (some s) = refl

-- By the run state IPv6 runs as before, and it is disabled as before; the configuration keeps its sections.
pub record Untouched (p q : Program) : Type 0 where
  pub running : family_running q.run_state Family.v6 ≡ family_running p.run_state Family.v6
  pub disable : q.cfg_state.defaults.disable_ipv6 ≡ p.cfg_state.defaults.disable_ipv6
  pub kept : sections q.cfg_state ≡ sections p.cfg_state

choose3 :
    (a b : Bool) (x y p : Program)
    → Untouched p x
    → Untouched p y
    → Untouched p (if a then x else if b then x else y)
choose3 true b x y p hx hy = hx
choose3 false true x y p hx hy = hx
choose3 false false x y p hx hy = hy

disable_set :
    (p : Program)
    → (set_running Family.v4 true p).cfg_state.defaults.disable_ipv6
      ≡ p.cfg_state.defaults.disable_ipv6
unfolding set_running family_set
disable_set p = refl

sections_set :
    (f : ℕ) (p : Program) → sections (set_running f true p).cfg_state ≡ sections p.cfg_state
unfolding set_running family_set sections
sections_set f p = refl

pub start_family-Untouched :
    (env : Env) (p : Program) → Untouched p (start_family env Family.any Family.v4 p)
unfolding start_family set_running
start_family-Untouched env p =
    let spawned : Program = spawn_ipsets env Family.v4 false p in
    let filled : Program = populate env true false Family.v4 tables spawned in
    let same : Same p filled =
      populate-Same env true false Family.v4 tables p spawned
        (record { run = refl; disable = refl }) in
    choose3 (disabled Family.v4 p) (family_running p.run_state Family.v4) spawned
      (record (set_running Family.v4 true (restore_includes env Family.v4 false filled)) {
        done = true;
      })
      p (record { running = refl; disable = refl; kept = refl })
      (record {
        running =
            ap (λ r. family_running (family_set_run Family.v4 true r) Family.v6) same.run
            ∙ family_set_run_other p.run_state;
        disable = disable_set (restore_includes env Family.v4 false filled) ∙ same.disable;
        kept =
            sections_set Family.v4 (restore_includes env Family.v4 false filled)
            ∙ sections-populate env true false Family.v4 tables spawned;
      })
