-- ===== src/Tests/Main.antt =====
-- The results on the commands and on includes at concrete inputs.
use firewall.Common.{All, true, false, [], ◌∷◌, none, some, ◌≡◌, ◌⊎◌, refl, arith, inr, keep}
use firewall.Common.CString.{CString, codes}
use firewall.Options.Family
use firewall.Iptables.Chains.{flushed, for_each, created, deletions}
use firewall.Includes.{is_restored, print_includes, session, print_includes-session}
use firewall.Main.{Env, family_running}
use firewall.Main.Tables.{populate_table, clear_table}
use firewall.Main.Tables.Flushed.{IsOwnName, clear_table-keeps_custom}
use firewall.Main.Tables.Pairing.{clear-populate_table}
use firewall.Main.Commands.{Program, stop}
use firewall.Main.Stopped.{stop_off}
use firewall.Main.Lookup.{IsFirst, IsAbsent, lookup_network, lookup_network-cases}
use firewall.Tests.Sample.{lan, wan}
use firewall.Tests.NatSample.{nat_zones, restore_file, ftp_redirect, snat_wan}

-- Every table opens; no file can be read.
abbrev system : Env
system = record {
  opens = λ h. true;
  exists = λ set. true;
  loaded = λ helper. true;
  loopback = λ name. true;
  inet_ntop = λ a. codes "10.0.0.1";
  read = λ path. none;
  pipe = true;
  addrs = λ z. [];
}

abbrev full : firewall.Options.Types.Config.State
full = record nat_zones {
  redirects = record ftp_redirect { src_zone = some 1; dest_zone = some 0 } ∷ [];
  snats = record snat_wan { src_zone = some 1 } ∷ [];
  includes = restore_file ∷ record restore_file { type = 0 } ∷ [];
}

clear-populate_table_example :
    deletions
      (clear_table
        (record { family = 4; table = 1 })
        true
        (populate_table system (record { family = 4; table = 1 }) false full).0).1
    ≡ for_each true
        (created (populate_table system (record { family = 4; table = 1 }) false full).1)
unfolding firewall.Utils.Flags.has firewall.Common.Bits.hasbit firewall.Utils.Flags.is_family
clear-populate_table_example =
    clear-populate_table system (record { family = 4; table = 1 }) false true full (omega arith)
      refl (refl, (refl, tt))

abbrev idle : Program
idle = record { run_state = none; cfg_state = full; effects = []; done = false }

abbrev running : Program
running = record { run_state = some full; cfg_state = full; effects = []; done = false }

stop_off_example : family_running (stop system false running).run_state Family.v6 ≡ false
stop_off_example = stop_off system false running Family.v6 (inr refl)

print_includes-session_example :
    print_includes true full Family.v4 false
    ≡ session true Family.v4 (keep (is_restored Family.v4 false) full.includes)
print_includes-session_example = print_includes-session true full Family.v4 false

lookup_network-cases_example :
    ((lookup_network (lan ∷ wan ∷ []) (codes "dmz") ≡ none)
      × IsAbsent (λ z. z.networks) (lan ∷ wan ∷ []) (codes "dmz"))
    ⊎ ((answer : CString) × (lookup_network (lan ∷ wan ∷ []) (codes "dmz") ≡ some answer)
        × IsFirst (λ z. z.networks) (lan ∷ wan ∷ []) (codes "dmz") answer)
lookup_network-cases_example = lookup_network-cases (lan ∷ wan ∷ []) (codes "dmz")

-- The configuration as `populate_table` leaves it, with all its marks.
clear_table-keeps_custom_example : All IsOwnName (
    flushed
      (clear_table
        (record { family = 4; table = 0 })
        true
        (populate_table system (record { family = 4; table = 0 }) false full).0).1)
clear_table-keeps_custom_example =
    clear_table-keeps_custom (record { family = 4; table = 0 })
      (populate_table system (record { family = 4; table = 0 }) false full).0
