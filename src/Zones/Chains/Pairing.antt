-- ===== src/Zones/Chains/Pairing.antt =====
-- What is printed for a zone is what is flushed for it later.
use firewall.Common.{ℕ, Bool, true, List, [], map, ◌≡◌, ap, ◌∙◌, arith, keep, append-nil}
use firewall.Common.CString.{CString}
use firewall.Options.Types.{ChainSpec, Zone}
use firewall.Options.Flag
use firewall.Utils.Flags.{has, is_family, has-set_again, has-set_self, has-set_mono}
use firewall.Utils.Flags
use firewall.Iptables.{Handle}
use firewall.Iptables.Chains.{
  for_each, selected, created, deletions, created-append, deletions-append, created-create_chain,
  deletions-delete_chain, deletions-flush_chain, keep_congr,
}
use firewall.Zones.ChainNames.{zone_chains, format_chain}
use firewall.Zones.Chains.{
  custom_rules, custom_rule, mark_table, create_chains, print_zone_chain, flushable, flush_zone,
}

-- The names of the chains of a zone that the open table takes.
unfoldable pub chain_names : Handle → Zone → List CString
chain_names h z = map (λ c. format_chain c.format z.name) (keep (selected h z.flags) zone_chains)

abbrev name_of : Zone → ChainSpec → CString
name_of z c = format_chain c.format z.name

created-custom_rules : (h : Handle) (z : Zone) → created (custom_rules h z) ≡ []
unfolding custom_rules custom_rule
created-custom_rules h z = ground arith

pub created-print_zone_chain :
    (h : Handle) (reload : Bool) (z : Zone)
    → is_family z.family h.family ≡ true
    → created (print_zone_chain h reload z).1 ≡ chain_names h (mark_table h z)
unfolding print_zone_chain create_chains chain_names
created-print_zone_chain h reload z fam =
    let made : List ChainSpec = keep (selected h (mark_table h z).flags) zone_chains in
    rw (fam, created-append)
      (rw (created-create_chain (name_of (mark_table h z)) reload made)
        (rw (created-custom_rules h (mark_table h z), append-nil)))

deletions-flush_zone :
    (h : Handle) (reload : Bool) (z : Zone)
    → has z.flags h.family h.table ≡ true
    → deletions (flush_zone h reload z).1 ≡ for_each reload (chain_names h z)
unfolding flush_zone chain_names
deletions-flush_zone h reload z on =
    rw (on, deletions-append)
      (rw (
        deletions-flush_chain (name_of z) (keep (flushable h reload z) zone_chains),
        deletions-delete_chain (name_of z) reload (keep (selected h z.flags) zone_chains),
      ))

-- After it is printed a zone takes the same chains as while it is printed.
has-mark_table : (h : Handle) (z : Zone) → has (mark_table h z).flags h.family h.table ≡ true
unfolding mark_table
has-mark_table h z = ground (
  arith,
  has-set_self z.flags h.family h.table,
  has-set_mono (Flags.set z.flags h.family h.table) h.family Flag.custom_chains h.family h.table,
)

chain_names-set_again :
    (h : Handle) (z : Zone) (a : ℕ)
    → has z.flags h.family a ≡ true
    → chain_names h (record z { flags = Flags.set z.flags h.family a }) ≡ chain_names h z
unfolding chain_names selected
chain_names-set_again h z a on =
    ap (map (name_of z))
      (keep_congr _ _ zone_chains λ c. rw (has-set_again z.flags h.family a c.flag on))

-- A zone of the open family: `fw3_flush_zones` asks for the deletion of each chain that
-- `print_zone_chain` creates, for the zone that it leaves, in the same order; a chain in use is spared
-- exactly if the flush is for a reload.
pub print-flush_zone :
    (h : Handle) (reload again : Bool) (z : Zone)
    → is_family z.family h.family ≡ true
    → deletions (flush_zone h again (print_zone_chain h reload z).0).1
      ≡ for_each again (created (print_zone_chain h reload z).1)
unfolding print_zone_chain
print-flush_zone h reload again z fam = rw (created-print_zone_chain h reload z fam) (
    rw fam (
      deletions-flush_zone h again _
        (has-set_mono (mark_table h z).flags h.family h.table h.family h.table (has-mark_table h z))
      ∙ ap (for_each again)
          (chain_names-set_again h (mark_table h z) h.table (has-mark_table h z))))
