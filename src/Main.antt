-- ===== src/Main.antt =====
-- main.c: what the commands do to the tables, and to the two states. The program's own effects are a
-- list, in their order. An `Env` answers for what is asked of the system and of the C library; its
-- answers do not change while a command runs.
pub mod Tables
pub mod Commands
pub mod Reload
pub mod Lookup
pub mod Running
pub mod Stopped
pub mod Started
pub mod Untouched
pub mod Installed
pub mod Build
use firewall.Common.{ℕ, Bool, false, List, Option, none, some, if◌then◌else◌}
use firewall.Common.CString.{CString}
use firewall.Options.Types.{Address, InetAddr, Zone}
use firewall.Options.Types.Config.{CtHelper, Ipset, State}
use firewall.Iptables.{Handle, Trace}
use firewall.Includes.{IncludeCall}
use firewall.Zones.Rules.Jumps.{Hotplug}
use firewall.Utils.Flags.{has}
use firewall.Utils.Flags

pub record Env : Type 0 where
  pub opens : Handle → Bool  -- `fw3_ipt_open`
  pub exists : Ipset → Bool  -- `fw3_check_ipset`
  pub loaded : CtHelper → Bool  -- `test_module`
  pub loopback : CString → Bool  -- `fw3_check_loopback_dev`
  pub inet_ntop : InetAddr → CString
  pub read : CString → Option (List CString)  -- the lines of a file
  pub pipe : Bool  -- `fw3_command_pipe`
  pub addrs : Zone → List Address  -- `fw3_resolve_zone_addresses`

pub data Effect : Type 0 where
  -- An open table's calls, and whether they are committed.
  table : Handle → Trace → Bool → Effect
  gc_table : Handle → Effect
  ipset : List CString → Effect
  include : List IncludeCall → Effect
  hotplug : List Hotplug → Effect
  -- The calls of functions that are not modelled.
  flush_conntrack : Option State → Effect
  set_defaults : State → Effect
  write_statefile : State → Effect

-- `family_running`.
unfoldable pub family_running : Option State → ℕ → Bool
family_running none family = false
family_running (some run_state) family = has run_state.defaults.flags family family

-- `family_set`.
unfoldable pub family_set : ℕ → Bool → State → State
family_set family on state = record state {
  defaults = record state.defaults {
    flags =
        if on
        then Flags.set state.defaults.flags family family
        else Flags.del state.defaults.flags family family;
  };
}

unfoldable pub family_set_run : ℕ → Bool → Option State → Option State
unfolding family_set
family_set_run family on none = none
family_set_run family on (some state) = some (family_set family on state)
