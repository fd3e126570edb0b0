-- ===== src/Main/Started.antt =====
-- `start` brings up a family that is not disabled and does not run.
use firewall.Common.{ℕ, true, some, ◌≡◌}
use firewall.Options.Family
use firewall.Options.Flag
use firewall.Options.Types.{Defaults}
use firewall.Options.Types.Config.{State}
use firewall.Utils.Flags
use firewall.Main.{Env, family_running}
use firewall.Main.Tables.Sections.{Sections}
use firewall.Main.Installed.{AllInstalled}
use firewall.Main.Commands.{Program, tables}

-- The configuration's state has the bit of a family.
abbrev pub IsUp : State → ℕ → Type 0
IsUp s g = family_running (some s) g ≡ true

-- A family is up, `rv` is 0, and the family's tables have been committed with what the sections ask for.
record Up (env : Env) (c : Sections) (g : ℕ) (p : Program) : Type 0 where
  rv : p.done ≡ true
  flag : IsUp p.cfg_state g
  installed : AllInstalled env g c p.effects tables
