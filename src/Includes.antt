-- ===== src/Includes.antt =====
-- includes.c: `fw3_load_includes`, over the sections that the option parsers have filled in, and which
-- files and scripts are run. What their text is, and what becomes of it, is not the program's.
use firewall.Common.{
  ℕ, Bool, true, false, not, ◌&&◌, List, [], ◌∷◌, ◌++◌, map, Option, ◌==◌, ◌≡◌, refl, arith,
  is_some, keep, if◌then◌else◌,
}
use firewall.Common.CString.{CString, codes}
use firewall.Options.Family
use firewall.Options.Types.Config.{Include, State}
use firewall.Utils.Flags.{is_family}
use firewall.Sections.{each_section}

-- `enum fw3_include_type`.
abbrev pub script : ℕ
script = 0

abbrev pub restore : ℕ
restore = 1

unfoldable pub check_include : Include → Bool
check_include i = i.enabled && is_some i.path

-- One turn of either loop: a section of the configuration is checked even when its options are invalid;
-- one from ubus is not, and the Boolean is then false.
unfoldable pub load_include : State → Bool × Include → State
unfolding check_include
load_include state (valid, i) =
    if valid && check_include i then record state { includes = state.includes ++ i ∷ [] } else state

-- `fw3_load_includes`.
unfoldable pub load_includes : State → List (Bool × Include) → State
unfolding load_include
load_includes state sections = each_section load_include (record state { includes = [] }) sections

-- What the program does with the command and the files.
pub data IncludeCall : Type 0 where
  command_pipe : CString → IncludeCall
  print_include : Option CString → IncludeCall
  command_close : IncludeCall
  run_include : Option CString → IncludeCall

-- The sections that `fw3_print_includes` does not pass over.
unfoldable pub is_restored : ℕ → Bool → Include → Bool
is_restored family reload i =
    not (reload && not i.reload) && i.type == restore && is_family i.family family

abbrev restore_command : ℕ → CString
restore_command family =
    if family == Family.v6 then codes "ip6tables-restore" else codes "iptables-restore"

-- The loop of `fw3_print_includes`: `exec` tells whether the command runs, `pipe` whether it can be
-- started.
unfoldable pub print_loop : Bool → ℕ → Bool → Bool → List Include → List IncludeCall
unfolding is_restored
print_loop pipe family reload exec [] = if exec then command_close ∷ [] else []
print_loop pipe family reload exec (i ∷ includes) =
    let passed = print_loop pipe family reload exec includes in
    let opened = print_loop pipe family reload true includes in
    if not (is_restored family reload i)
    then passed
    else if exec
    then print_include i.path ∷ opened
    else command_pipe (restore_command family)
      ∷ (if pipe then print_include i.path ∷ opened else [])

unfoldable pub print_includes : Bool → State → ℕ → Bool → List IncludeCall
unfolding print_loop
print_includes pipe state family reload = print_loop pipe family reload false state.includes

-- `fw3_run_includes`.
unfoldable pub run_includes : State → Bool → List IncludeCall
run_includes state reload =
    map (λ (i : Include). run_include i.path)
      (keep (λ i. not (reload && not i.reload) && i.type == script) state.includes)

-- The calls without the loop: the command is started once, if a file is to be read, and closed behind the
-- last one.
abbrev pub session : Bool → ℕ → List Include → List IncludeCall
session pipe family [] = []
session pipe family (i ∷ includes) =
    command_pipe (restore_command family)
    ∷ (if pipe
        then map (λ (j : Include). print_include j.path) (i ∷ includes) ++ command_close ∷ []
        else [])

print_loop_open :
    (pipe : Bool) (family : ℕ) (reload : Bool) (includes : List Include)
    → print_loop pipe family reload true includes
      ≡ map (λ (j : Include). print_include j.path) (keep (is_restored family reload) includes)
        ++ command_close ∷ []
unfolding print_loop
print_loop_open pipe family reload [] = refl
print_loop_open pipe family reload (i ∷ includes) =
    ground (arith, print_loop_open pipe family reload includes)

print_loop-session :
    (pipe : Bool) (family : ℕ) (reload : Bool) (includes : List Include)
    → print_loop pipe family reload false includes
      ≡ session pipe family (keep (is_restored family reload) includes)
unfolding print_loop
print_loop-session pipe family reload [] = refl
print_loop-session pipe family reload (i ∷ includes) = ground (
  arith,
  print_loop-session pipe family reload includes,
  print_loop_open pipe family reload includes,
)

-- Whether or not the command can be started: `fw3_print_includes` starts it once if a section asks for a
-- file to be restored in the family, hands it the files of those sections in order, and closes it; it
-- does nothing if there is no such section.
pub print_includes-session :
    (pipe : Bool) (state : State) (family : ℕ) (reload : Bool)
    → print_includes pipe state family reload
      ≡ session pipe family (keep (is_restored family reload) state.includes)
unfolding print_includes
print_includes-session pipe state family reload =
    print_loop-session pipe family reload state.includes
