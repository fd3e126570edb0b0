-- ===== src/Main/Running.antt =====
-- Which families the commands leave running.
use firewall.Common.{ℕ, Bool, true, false, ◌≡◌, refl, if◌then◌else◌}
use firewall.Options.Family
use firewall.Main.{Env, family_running}
use firewall.Main.Commands.{Program, spawn_ipsets, start, start_family, finish, disabled}

passed : {A : Type 0} (a b : Bool) (x y : A) → b ≡ true → (if a then x else if b then x else y) ≡ x
passed true b x y h = refl
passed false b x y h = rw h refl

start_family_running :
    (env : Env) (family : ℕ) (p : Program)
    → family_running p.run_state family ≡ true
    → start_family env Family.any family p ≡ spawn_ipsets env family false p
unfolding start_family
start_family_running env family p on =
    passed (disabled family p) (family_running p.run_state family) (spawn_ipsets env family false p)
      _ on

-- `start` where both families run already: only sets are created, in both families; no table is opened, and
-- neither state changes.
pub start_running :
    (env : Env) (p : Program)
    → family_running p.run_state Family.v4 ≡ true
    → family_running p.run_state Family.v6 ≡ true
    → start env Family.any p
      ≡ record (spawn_ipsets env Family.v6 false (spawn_ipsets env Family.v4 false p)) {
        done = false;
      }
unfolding start finish
start_running env p on4 on6 =
    rw
      (
        start_family_running env Family.v4 (record p { done = false }) on4,
        start_family_running env Family.v6
            (spawn_ipsets env Family.v4 false (record p { done = false })) on6,
      )
      refl
