-- ===== src/Options/Names.antt =====
-- The name tables of options.c, indexed by the enumerations of options.h.
use firewall.Common.{ℕ, List, [], ◌∷◌, get_or}
use firewall.Common.CString.{CString, codes}

-- `fw3_flag_names`. The array has an entry for each value up to `FW3_FLAG_SRC_DROP`; the entries
-- behind those are NULL, which stands here as the empty string.
unfoldable pub flag_names : List CString
flag_names =
    codes "filter"
    ∷ codes "nat"
    ∷ codes "mangle"
    ∷ codes "raw"
    ∷ codes "IPv4"
    ∷ codes "IPv6"
    ∷ codes "ACCEPT"
    ∷ codes "REJECT"
    ∷ codes "DROP"
    ∷ codes "NOTRACK"
    ∷ codes "HELPER"
    ∷ codes "MARK"
    ∷ codes "DSCP"
    ∷ codes "DNAT"
    ∷ codes "SNAT"
    ∷ codes "MASQUERADE"
    ∷ codes "ACCEPT"
    ∷ codes "REJECT"
    ∷ codes "DROP"
    ∷ []

unfoldable pub reject_code_names : List CString
reject_code_names = codes "tcp-reset" ∷ codes "port-unreach" ∷ codes "adm-prohibited" ∷ []

unfoldable pub limit_units : List CString
limit_units = codes "second" ∷ codes "minute" ∷ codes "hour" ∷ codes "day" ∷ []

unfoldable pub ipset_method_names : List CString
ipset_method_names = codes "(bug)" ∷ codes "bitmap" ∷ codes "hash" ∷ codes "list" ∷ []

unfoldable pub ipset_type_names : List CString
ipset_type_names =
    codes "(bug)" ∷ codes "ip" ∷ codes "port" ∷ codes "mac" ∷ codes "net" ∷ codes "set" ∷ []

-- `names[i]`.
unfoldable pub name_at : List CString → ℕ → CString
name_at names i = get_or names i []
