-- ===== src/Tests/Zones.antt =====
-- The results on zones at concrete inputs.
use firewall.Common.{true, false, [], ◌∷◌, ◌≡◌, refl, arith, All}
use firewall.Common.CString.{codes}
use firewall.Iptables.{Handle}
use firewall.Iptables.Chains.{for_each, created, deletions}
use firewall.Zones.ChainNames.{zone_chains, format_chain}
use firewall.Zones.ChainNames.Fits.{IsWhole, zone_chains_fit}
use firewall.Zones.Chains.{print_zone_chains, flush_zones}
use firewall.Zones.Chains.AllZones.{print-flush_zones}
use firewall.Tests.Sample.{lan, wan}

-- An input in which both zones take part, and one that skips `wan`.
abbrev filter4 : Handle
filter4 = record { family = 4; table = 0 }

abbrev raw6 : Handle
raw6 = record { family = 5; table = 3 }

format_chain_short : format_chain (codes "input_?_rule") (codes "lan") ≡ codes "input_lan_rule"
unfolding format_chain
format_chain_short = refl

-- A name that does not fit is dropped with all that follows.
format_chain_long :
    format_chain (codes "zone_?_input") (codes "0123456789012345678901234567") ≡ codes "zone_"
unfolding format_chain
format_chain_long = refl

zone_chains_fit_example : All (IsWhole (codes "lan")) zone_chains
zone_chains_fit_example = zone_chains_fit (codes "lan") (omega arith)

print-flush_zones_example :
    deletions (flush_zones raw6 true (print_zone_chains raw6 false (lan ∷ wan ∷ [])).0).1
    ≡ for_each true (created (print_zone_chains raw6 false (lan ∷ wan ∷ [])).1)
unfolding firewall.Utils.Flags.has firewall.Common.Bits.hasbit firewall.Utils.Flags.is_family
print-flush_zones_example = print-flush_zones raw6 false true (lan ∷ wan ∷ []) (refl, (refl, tt))
