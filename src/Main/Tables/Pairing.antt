-- ===== src/Main/Tables/Pairing.antt =====
-- What one table is given and what is taken from it.
use firewall.Common.{
  map-append, ◌<◌, Bool, false, ◌&&◌, ◌++◌, ◌≡◌, sym, ap, ap₂, ◌∙◌, ◌==◌, All, append-nil,
}
use firewall.Options.Family
use firewall.Options.Types.Config.{State}
use firewall.Iptables.{Handle}
use firewall.Iptables.Chains.{for_each, created, deletions, created-append, deletions-append}
use firewall.Iptables.Silent.{Silent-append}
use firewall.Defaults.Chains.{print_default_chains, flush_rules}
use firewall.Defaults.Chains.Pairing.{print-flush_rules}
use firewall.Zones.Chains.{print_zone_chains, flush_zones}
use firewall.Zones.Chains.AllZones.{Unmarked, print-flush_zones}
use firewall.Rules.Expand.{print_rules}
use firewall.Redirects.Expand.{print_redirects}
use firewall.Snats.Print.{print_snats}
use firewall.Main.{Env}
use firewall.Main.Tables.{print_chains, print_all_rules, populate_table, clear_table}
use firewall.Main.Tables.Rules.{
  Quiet, Quiet-rules, Quiet-snats, Silent-head, Silent-tail, Silent-forwards,
}
use firewall.Main.Tables.Nat.{Quiet-redirects}
use firewall.Main.Tables.Zones.{Silent-zone_rules}

pub Quiet-all_rules : (env : Env) (h : Handle) (s : State) → Quiet s (print_all_rules env h s)
unfolding print_all_rules
Quiet-all_rules env h s =
    let s1 : State = (print_rules h env.exists s).0 in
    let s2 : State = (print_redirects env.inet_ntop env.addrs env.exists h s1).0 in
    let s3 : State = (print_snats env.inet_ntop env.exists h s2).0 in
    let rules = Quiet-rules h env.exists s in
    let redirects = Quiet-redirects env.inet_ntop env.addrs env.exists h s1 in
    let snats = Quiet-snats env.inet_ntop env.exists h s2 in
    record {
      silent = Silent-append _ _ (Silent-head h s.defaults) (
          Silent-append _ _ rules.silent (
            Silent-append _ _ redirects.silent (
              Silent-append _ _ snats.silent (
                Silent-append _ _ (Silent-forwards h s3) (
                  Silent-append _ _ (Silent-zone_rules env.loaded env.loopback h s3)
                    (Silent-tail h s3.defaults))))));
      zones = snats.zones ∙ (redirects.zones ∙ rules.zones);
      defaults = snats.defaults ∙ (redirects.defaults ∙ rules.defaults);
      sections = snats.sections ∙ (redirects.sections ∙ rules.sections);
    }

module _ (h : Handle) (reload again : Bool) (s : State) where
  deletions-clear_table :
      deletions (clear_table h again s).1
      ≡ deletions (flush_rules h again s.defaults).1 ++ deletions (flush_zones h again s.zones).1
  unfolding clear_table
  deletions-clear_table =
      deletions-append (flush_rules h again s.defaults).1 (flush_zones h again s.zones).1

  created-print_chains :
      created (print_chains h reload s).1
      ≡ created (print_default_chains h reload s.defaults).1
        ++ created (print_zone_chains h reload s.zones).1
  unfolding print_chains
  created-print_chains =
      created-append (print_default_chains h reload s.defaults).1
        (print_zone_chains h reload s.zones).1

  -- The chains alone: what is flushed is what was printed.
  print-clear_chains :
      h.table < 4
      → (h.family == Family.v6 && s.defaults.disable_ipv6) ≡ false
      → All (Unmarked h) s.zones
      → deletions (flush_rules h again (print_chains h reload s).0.defaults).1
          ++ deletions (flush_zones h again (print_chains h reload s).0.zones).1
        ≡ for_each again (created (print_chains h reload s).1)
  unfolding print_chains
  print-clear_chains small enabled unmarked =
      ap₂ ◌++◌ (print-flush_rules h reload again s.defaults small enabled)
        (print-flush_zones h reload again s.zones unmarked)
      ∙ sym (map-append (λ c. (again, c)) (created (print_default_chains h reload s.defaults).1) _)
      ∙ ap (for_each again) (
          sym (
            created-append (print_default_chains h reload s.defaults).1
              (print_zone_chains h reload s.zones).1))

-- For a table of a family that is not disabled, and zones that bear no mark of the table unless the family
-- concerns them: when the table has been populated, by `start` or by `reload`, clearing it for the state
-- that is left asks for the deletion of each chain that was created, and of no other, in the order of
-- their creation; a chain in use is spared exactly if the clearing is for a reload.
pub clear-populate_table :
    (env : Env) (h : Handle) (reload again : Bool) (s : State)
    → h.table < 4
    → (h.family == Family.v6 && s.defaults.disable_ipv6) ≡ false
    → All (Unmarked h) s.zones
    → deletions (clear_table h again (populate_table env h reload s).0).1
      ≡ for_each again (created (populate_table env h reload s).1)
unfolding populate_table
clear-populate_table env h reload again s small enabled unmarked =
    let chained : State = (print_chains h reload s).0 in
    let quiet = Quiet-all_rules env h chained in
    let after : State = (print_all_rules env h chained).0 in
    let nothing = quiet.silent.nothing in
    deletions-clear_table h reload again after
    ∙ (ap₂ (λ d z. deletions (flush_rules h again d).1 ++ deletions (flush_zones h again z).1)
          quiet.defaults quiet.zones
        ∙ (print-clear_chains h reload again s small enabled unmarked
            ∙ ap (for_each again) (
                sym (
                  created-append (print_chains h reload s).1 (print_all_rules env h chained).1
                  ∙ (ap (λ t. created (print_chains h reload s).1 ++ t) nothing
                      ∙ append-nil (created (print_chains h reload s).1))))))
