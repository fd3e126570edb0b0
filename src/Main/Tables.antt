-- ===== src/Main/Tables.antt =====
-- What `start`, `reload` and `stop` do to one open table.
pub mod Rules
pub mod Nat
pub mod Zones
pub mod Pairing
pub mod Flushed
pub mod Sections
use firewall.Common.{Bool, ◌++◌}
use firewall.Options.Types.Config.{State}
use firewall.Iptables.{Handle, Trace}
use firewall.Defaults.Chains.{print_default_chains, flush_rules}
use firewall.Defaults.Rules.{print_default_head_rules, print_default_tail_rules}
use firewall.Zones.Chains.{print_zone_chains, flush_zones}
use firewall.Zones.Rules.Jumps.{print_zone_rules}
use firewall.Rules.Expand.{print_rules}
use firewall.Redirects.Expand.{print_redirects}
use firewall.Snats.Print.{print_snats}
use firewall.Forwards.Print.{print_forwards}
use firewall.Main.{Env}

-- `fw3_print_default_chains` and `fw3_print_zone_chains`.
unfoldable pub print_chains : Handle → Bool → State → State × Trace
print_chains h reload state =
    let (defs, t) = print_default_chains h reload state.defaults in
    let (zones, ts) = print_zone_chains h reload state.zones in
    (record state { defaults = defs; zones = zones }, t ++ ts)

-- From `fw3_print_default_head_rules` to `fw3_print_default_tail_rules`.
unfoldable pub print_all_rules : Env → Handle → State → State × Trace
print_all_rules env h state =
    let (s1, rules) = print_rules h env.exists state in
    let (s2, redirects) = print_redirects env.inet_ntop env.addrs env.exists h s1 in
    let (s3, snats) = print_snats env.inet_ntop env.exists h s2 in
    (
      s3,
      print_default_head_rules h state.defaults
          ++ (rules
              ++ (redirects
                  ++ (snats
                      ++ (print_forwards h s3
                          ++ (print_zone_rules env.loaded env.loopback h s3
                              ++ print_default_tail_rules h s3.defaults))))),
    )

-- The body of the loop over the tables, in `start` and in `reload`.
unfoldable pub populate_table : Env → Handle → Bool → State → State × Trace
unfolding print_chains print_all_rules
populate_table env h reload state =
    let (chained, t) = print_chains h reload state in
    let (last, ts) = print_all_rules env h chained in (last, t ++ ts)

-- `fw3_flush_rules` and `fw3_flush_zones`.
unfoldable pub clear_table : Handle → Bool → State → State × Trace
clear_table h reload state =
    let (defs, t) = flush_rules h reload state.defaults in
    let (zones, ts) = flush_zones h reload state.zones in
    (record state { defaults = defs; zones = zones }, t ++ ts)
