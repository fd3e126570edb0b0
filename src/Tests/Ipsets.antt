-- ===== src/Tests/Ipsets.antt =====
-- The results on sets at concrete inputs.
use firewall.Common.{true, false, not, [], ◌∷◌, some, ◌≡◌, ◌↔◌, refl}
use firewall.Common.Bits.{hasbit}
use firewall.Common.CString.{codes}
use firewall.Options.Family
use firewall.Options.IpsetMethod
use firewall.Options.Names.{name_at, ipset_method_names, ipset_type_names}
use firewall.Common.Number.{print_decimal}
use firewall.Options.Types.Config.{Ipset}
use firewall.Ipsets.Check.{check_ipset, type_list, ipset_types, assume_method}
use firewall.Ipsets.Commands.{create_line}
use firewall.Ipsets.Supported.{IsSupported, check_ipset-IsSupported, check_ipset-bitmap}
use firewall.Ipsets.Reload.{is_destroyed, update_ipset, KeptBy, update_ipset-kept_iff}
use firewall.Tests.Sample.{ports}

-- The set of ports as it is accepted.
abbrev stored : Ipset
stored = record ports { method = IpsetMethod.bitmap; maxelem = 0 }

check_ipset-ports : check_ipset ports ≡ some stored
unfolding check_ipset type_list ipset_types assume_method hasbit
check_ipset-ports = refl

create_line-stored : create_line (λ a. []) stored ≡ codes "create mail bitmap:port range 20-25\n"
unfolding create_line name_at ipset_method_names ipset_type_names print_decimal
create_line-stored = refl

check_ipset-IsSupported_example : IsSupported stored
check_ipset-IsSupported_example = check_ipset-IsSupported ports stored check_ipset-ports

check_ipset-bitmap_example :
    (stored.family ≡ Family.v4)
    × (stored.iprange.set ≡ not stored.portrange.set)
    × (stored.hashsize ≡ 0)
    × (stored.maxelem ≡ 0)
check_ipset-bitmap_example = check_ipset-bitmap ports stored check_ipset-ports refl refl

update_ipset-kept_iff_example :
    (is_destroyed 4 true (update_ipset 4 (ports ∷ []) stored) ≡ false)
    ↔ KeptBy 4 stored (ports ∷ [])
update_ipset-kept_iff_example = update_ipset-kept_iff 4 stored (ports ∷ []) refl
