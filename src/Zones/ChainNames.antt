-- ===== src/Zones/ChainNames.antt =====
-- The chain table of zones.c and `format_chain`, which puts a zone's name for each `?`.
pub mod Fits
use firewall.Common.{ℕ, ◌+◌, ◌-◌, List, [], ◌∷◌, ◌++◌, true, false, ◌==◌, leb, length}
use firewall.Common.CString.{CString, codes}
use firewall.Options.Types.{ChainSpec}
use firewall.Options.Family
use firewall.Options.Table
use firewall.Options.Flag

-- `C(f, tbl, tgt, fmt)`.
abbrev spec : ℕ → ℕ → ℕ → CString → ChainSpec
spec f tbl tgt fmt = record { family = f; table = tbl; flag = tgt; format = fmt }

unfoldable pub zone_chains : List ChainSpec
zone_chains =
    spec Family.any Table.filter Flag.unspec (codes "zone_?_input")
    ∷ spec Family.any Table.filter Flag.unspec (codes "zone_?_output")
    ∷ spec Family.any Table.filter Flag.unspec (codes "zone_?_forward")
    ∷ spec Family.any Table.filter Flag.src_accept (codes "zone_?_src_ACCEPT")
    ∷ spec Family.any Table.filter Flag.src_reject (codes "zone_?_src_REJECT")
    ∷ spec Family.any Table.filter Flag.src_drop (codes "zone_?_src_DROP")
    ∷ spec Family.any Table.filter Flag.accept (codes "zone_?_dest_ACCEPT")
    ∷ spec Family.any Table.filter Flag.reject (codes "zone_?_dest_REJECT")
    ∷ spec Family.any Table.filter Flag.drop (codes "zone_?_dest_DROP")
    ∷ spec Family.v4 Table.nat Flag.snat (codes "zone_?_postrouting")
    ∷ spec Family.v4 Table.nat Flag.dnat (codes "zone_?_prerouting")
    ∷ spec Family.any Table.raw Flag.helper (codes "zone_?_helper")
    ∷ spec Family.any Table.raw Flag.notrack (codes "zone_?_notrack")
    ∷ spec Family.any Table.filter Flag.custom_chains (codes "input_?_rule")
    ∷ spec Family.any Table.filter Flag.custom_chains (codes "output_?_rule")
    ∷ spec Family.any Table.filter Flag.custom_chains (codes "forwarding_?_rule")
    ∷ spec Family.v4 Table.nat Flag.custom_chains (codes "prerouting_?_rule")
    ∷ spec Family.v4 Table.nat Flag.custom_chains (codes "postrouting_?_rule")
    ∷ []

-- The loop of `format_chain`, with `rem` bytes left in the buffer. A name that does not fit is
-- dropped whole: `p` is not moved, and the terminating NUL goes where it began.
unfoldable pub format_loop : CString → CString → ℕ → CString
format_loop [] zonename rem = []
format_loop (c ∷ fmt) zonename rem = elim (c == b'?') [
  | true ↦ elim (leb rem (length zonename)) [
    | true ↦ []
    | false ↦ zonename ++ format_loop fmt zonename (rem - length zonename)
  ]
  | false ↦ elim (leb rem 1) [ true ↦ [] | false ↦ c ∷ format_loop fmt zonename (rem - 1) ]
]

-- `static char chain[32]`.
unfoldable pub format_chain : CString → CString → CString
unfolding format_loop
format_chain fmt zonename = format_loop fmt zonename 32

-- FW3_ZONE_MAXNAMELEN.
abbrev pub zone_maxnamelen : ℕ
zone_maxnamelen = 11
