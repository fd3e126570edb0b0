-- ===== src/Defaults/Chains/Pairing.antt =====
-- What is printed for the defaults is what is flushed for them later.
use firewall.Common.{
  ℕ, ◌<◌, ◌≤◌, ◌⊎◌, All, Bool, true, false, ◌&&◌, List, [], ◌++◌, map, ◌≡◌, ap, ap₂, ◌∙◌, arith,
  ◌==◌, keep,
}
use firewall.Common.CString.{CString}
use firewall.Options.Types.{ChainSpec, Defaults}
use firewall.Options.Family
use firewall.Utils.Flags.{Flags, has, has-set, has-set_self}
use firewall.Utils.Flags
use firewall.Iptables.{Handle}
use firewall.Iptables.Chains.{
  for_each, selected, created, deletions, created-append, deletions-append, created-create_chain,
  deletions-delete_chain, deletions-flush_chain, keep_congr_All,
}
use firewall.Defaults.Chains.{
  default_chains, set_policies, mark_features, print_default_chains, flushable, flush_rules,
}

created-set_policies : (h : Handle) (i o f : ℕ) → created (set_policies h i o f) ≡ []
unfolding set_policies
created-set_policies h i o f = ground arith

deletions-set_policies : (h : Handle) (i o f : ℕ) → deletions (set_policies h i o f) ≡ []
unfolding set_policies
deletions-set_policies h i o f = ground arith

-- The names of the built-in chains that the open table takes.
unfoldable pub chain_names : Handle → Defaults → List CString
chain_names h defs = map (λ c. c.format) (keep (selected h defs.flags) default_chains)

created-print_default_chains :
    (h : Handle) (reload : Bool) (defs : Defaults)
    → (h.family == Family.v6 && defs.disable_ipv6) ≡ false
    → created (print_default_chains h reload defs).1 ≡ chain_names h (mark_features h defs)
unfolding print_default_chains chain_names
created-print_default_chains h reload defs enabled =
    rw (enabled, created-append)
      (ap₂ ◌++◌ (created-set_policies h _ _ _) (
        created-create_chain (λ (c : ChainSpec). c.format) reload
          (keep (selected h (mark_features h defs).flags) default_chains)))

deletions-flush_rules :
    (h : Handle) (reload : Bool) (defs : Defaults)
    → has defs.flags h.family h.table ≡ true
    → deletions (flush_rules h reload defs).1 ≡ for_each reload (chain_names h defs)
unfolding flush_rules chain_names
deletions-flush_rules h reload defs on =
    rw (on, deletions-append, deletions-set_policies)
      (deletions-append (map _ (keep (flushable h reload defs) default_chains)) _
        ∙ ap₂ ◌++◌
            (deletions-flush_chain (λ (c : ChainSpec). c.format)
              (keep (flushable h reload defs) default_chains))
            (deletions-delete_chain (λ (c : ChainSpec). c.format) reload
              (keep (selected h defs.flags) default_chains)))

-- An entry has no flag, or one above the bits of the tables.
abbrev IsFeature : ChainSpec → Type 0
IsFeature c = (c.flag ≡ 0) ⊎ (4 ≤ c.flag)

default_chains-IsFeature : All IsFeature default_chains
unfolding default_chains
default_chains-IsFeature = omega arith

-- The bit of a table is that of no feature.
selected-table :
    (h : Handle) (flags : Flags) (c : ChainSpec)
    → h.table < 4
    → IsFeature c
    → selected h (Flags.set flags h.family h.table) c ≡ selected h flags c
unfolding selected
selected-table h flags c small feature =
    ground (arith, has-set flags h.family h.table h.family c.flag)

-- In a table of a family that is not disabled: `fw3_flush_rules` asks for the deletion of each chain that
-- `fw3_print_default_chains` creates, and of no other, for the defaults that it leaves, in the same order;
-- a chain in use is spared exactly if the flush is for a reload.
pub print-flush_rules :
    (h : Handle) (reload again : Bool) (defs : Defaults)
    → h.table < 4
    → (h.family == Family.v6 && defs.disable_ipv6) ≡ false
    → deletions (flush_rules h again (print_default_chains h reload defs).0).1
      ≡ for_each again (created (print_default_chains h reload defs).1)
unfolding print_default_chains
print-flush_rules h reload again defs small enabled =
    let marked : Defaults = mark_features h defs in
    rw (created-print_default_chains h reload defs enabled) (
      rw enabled (
        deletions-flush_rules h again
          (record marked { flags = Flags.set marked.flags h.family h.table })
          (has-set_self marked.flags h.family h.table)
        ∙ unfold chain_names in
          ap (λ cs. for_each again (map (λ (c : ChainSpec). c.format) cs))
            (keep_congr_All IsFeature _ _ default_chains default_chains-IsFeature
              λ c feature. selected-table h marked.flags c small feature)))
