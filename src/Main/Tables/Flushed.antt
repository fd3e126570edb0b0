-- ===== src/Main/Tables/Flushed.antt =====
-- What is flushed while a table is cleared for a reload.
use firewall.Common.{
  ℕ, true, not, ◌||◌, List, [], ◌∷◌, map, ◌≡◌, arith, ◌==◌, keep, All, All-append, append-nil,
  Bool-cases, inl, inr,
}
use firewall.Common.CString.{CString, codes, begins, streq}
use firewall.Options.Flag
use firewall.Options.Types.{ChainSpec, Defaults, Zone}
use firewall.Options.Types.Config.{State}
use firewall.Utils.Flags.{has}
use firewall.Iptables.{Handle}
use firewall.Iptables.Chains.{
  selected, flushed, flushed-append, flushed-flush_chain, flushed-delete_chain,
}
use firewall.Defaults.Chains.{default_chains, set_policies, flushable, flush_rules}
use firewall.Zones.Chains.{flush_zone, flush_zones}
use firewall.Zones.Chains.AllZones.{IsZoneName, flush_zone-keeps_custom}
use firewall.Main.Tables.{clear_table}

-- The names of chains that are not the user's: `reject`, `syn_flood`, and those that begin `zone_`.
abbrev pub IsOwnName : CString → Type 0
IsOwnName name =
    (begins (codes "zone_") name || streq name (codes "reject") || streq name (codes "syn_flood"))
    ≡ true

abbrev IsOwnChain : ChainSpec → Type 0
IsOwnChain c = not (c.flag == Flag.custom_chains) ≡ true → IsOwnName c.format

default_chains-IsOwnChain : All IsOwnChain default_chains
unfolding default_chains begins streq
default_chains-IsOwnChain = ground arith

own_defaults :
    (h : Handle) (d : Defaults) (cs : List ChainSpec)
    → All IsOwnChain cs
    → All IsOwnName (map (λ (c : ChainSpec). c.format) (keep (flushable h true d) cs))
unfolding flushable
own_defaults h d [] u = tt
own_defaults h d (c ∷ cs) u = ground (arith, own_defaults h d cs u.1)

flushed-set_policies : (h : Handle) (i o f : ℕ) → flushed (set_policies h i o f) ≡ []
unfolding set_policies
flushed-set_policies h i o f = ground arith

flush_rules-keeps_custom :
    (h : Handle) (d : Defaults) → All IsOwnName (flushed (flush_rules h true d).1)
unfolding flush_rules
flush_rules-keeps_custom h d = elim (Bool-cases (has d.flags h.family h.table)) [
  | inr off ↦ rw off tt
  | inl on ↦
      rw (on, flushed-append, flushed-set_policies, flushed-append, flushed-append)
        (rw
          (
            flushed-flush_chain (λ (c : ChainSpec). c.format)
                (keep (flushable h true d) default_chains),
            flushed-delete_chain (λ (c : ChainSpec). c.format) true
                (keep (selected h d.flags) default_chains),
            append-nil,
          )
          (own_defaults h d default_chains default_chains-IsOwnChain))
]

zone_names : (names : List CString) → All IsZoneName names → All IsOwnName names
zone_names [] h = tt
zone_names (n ∷ names) h = ground (arith, zone_names names h.1)

flush_zones-keeps_custom :
    (h : Handle) (zones : List Zone) → All IsOwnName (flushed (flush_zones h true zones).1)
unfolding flush_zones
flush_zones-keeps_custom h [] = tt
flush_zones-keeps_custom h (z ∷ zones) =
    rw (flushed-append (flush_zone h true z).1 (flush_zones h true zones).1) (
      All-append IsOwnName (flushed (flush_zone h true z).1) (flushed (flush_zones h true zones).1)
        (zone_names (flushed (flush_zone h true z).1) (flush_zone-keeps_custom h z))
        (flush_zones-keeps_custom h zones))

-- While a table is cleared for a reload, whatever the state: each chain that is flushed is `reject` or
-- `syn_flood`, or has a name that begins `zone_`, so that no chain of the user's is, neither of the defaults
-- nor of a zone.
pub clear_table-keeps_custom :
    (h : Handle) (s : State) → All IsOwnName (flushed (clear_table h true s).1)
unfolding clear_table
clear_table-keeps_custom h s =
    rw (flushed-append (flush_rules h true s.defaults).1 (flush_zones h true s.zones).1) (
      All-append IsOwnName (flushed (flush_rules h true s.defaults).1)
        (flushed (flush_zones h true s.zones).1) (flush_rules-keeps_custom h s.defaults)
        (flush_zones-keeps_custom h s.zones))
