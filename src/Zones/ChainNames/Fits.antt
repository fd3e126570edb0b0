-- ===== src/Zones/ChainNames/Fits.antt =====
-- Chain names: `format_chain` stays in its buffer, and a zone's name of the permitted length is
-- never cut in the name of a chain.
use firewall.Common.{
  ℕ, ◌+◌, ◌-◌, ◌≤◌, ◌<◌, true, false, List, [], ◌∷◌, ◌++◌, ◌≡◌, refl, arith, ◌==◌, length,
  length-append, All,
}
use firewall.Common.CString.{CString}
use firewall.Options.Types.{ChainSpec}
use firewall.Zones.ChainNames.{zone_chains, format_loop, format_chain, zone_maxnamelen}

-- The name of a chain with no limit on its length.
unfoldable pub expand : CString → CString → CString
expand [] zonename = []
expand (c ∷ fmt) zonename = elim (c == b'?') [
  | true ↦ zonename ++ expand fmt zonename
  | false ↦ c ∷ expand fmt zonename
]

format_loop-lt :
    (fmt zonename : CString) (rem : ℕ) → 0 < rem → length (format_loop fmt zonename rem) < rem
unfolding format_loop
format_loop-lt [] zonename rem h = omega arith
format_loop-lt (c ∷ fmt) zonename rem h = ground (
  arith,
  format_loop-lt fmt zonename (rem - length zonename),
  format_loop-lt fmt zonename (rem - 1),
  length-append zonename (format_loop fmt zonename (rem - length zonename)),
)

format_loop-expand :
    (fmt zonename : CString) (rem : ℕ)
    → length (expand fmt zonename) < rem
    → format_loop fmt zonename rem ≡ expand fmt zonename
unfolding format_loop expand
format_loop-expand [] zonename rem h = refl
format_loop-expand (c ∷ fmt) zonename rem h = ground (
  arith,
  format_loop-expand fmt zonename (rem - length zonename),
  format_loop-expand fmt zonename (rem - 1),
  length-append zonename (expand fmt zonename),
)

-- Whatever the format and the name, `format_chain` writes fewer bytes than its buffer of 32 holds.
format_chain_bounds : (fmt zonename : CString) → length (format_chain fmt zonename) < 32
unfolding format_chain
format_chain_bounds fmt zonename = format_loop-lt fmt zonename 32 (omega arith)

-- How often a format takes the zone's name.
abbrev pub marks : CString → ℕ
marks [] = 0
marks (c ∷ fmt) = elim (c == b'?') [ true ↦ 1 + marks fmt | false ↦ marks fmt ]

length-expand_plain :
    (fmt zonename : CString) → marks fmt ≡ 0 → length (expand fmt zonename) ≡ length fmt
unfolding expand
length-expand_plain [] zonename h = refl
length-expand_plain (c ∷ fmt) zonename h = ground (arith, length-expand_plain fmt zonename)

length-expand :
    (fmt zonename : CString)
    → marks fmt ≡ 1
    → length (expand fmt zonename) + 1 ≡ length fmt + length zonename
unfolding expand
length-expand [] zonename h = absurd (omega arith)
length-expand (c ∷ fmt) zonename h = ground (
  arith,
  length-expand fmt zonename,
  length-expand_plain fmt zonename,
  length-append zonename (expand fmt zonename),
)

-- A format of the table: one mark, and room for a name of eleven bytes below 29, the size of an
-- extension's name with its NUL.
abbrev pub HasRoom : ChainSpec → Type 0
HasRoom c = (marks c.format ≡ 1) × (length c.format + zone_maxnamelen ≤ 29)

zone_chains-HasRoom : All HasRoom zone_chains
unfolding zone_chains
zone_chains-HasRoom = omega arith

abbrev pub IsWhole : CString → ChainSpec → Type 0
IsWhole zonename c =
    (format_chain c.format zonename ≡ expand c.format zonename)
    × (length (format_chain c.format zonename) < 29)

pub HasRoom-IsWhole :
    (zonename : CString) (c : ChainSpec)
    → length zonename ≤ zone_maxnamelen
    → HasRoom c
    → IsWhole zonename c
unfolding format_chain
HasRoom-IsWhole zonename c h room =
    let len : length (expand c.format zonename) + 1 ≡ length c.format + length zonename =
      length-expand c.format zonename room.0 in
    let whole : format_loop c.format zonename 32 ≡ expand c.format zonename =
      format_loop-expand c.format zonename 32 (omega arith) in
    (whole, rw whole (omega arith))

All-IsWhole :
    (zonename : CString) (cs : List ChainSpec)
    → length zonename ≤ zone_maxnamelen
    → All HasRoom cs
    → All (IsWhole zonename) cs
All-IsWhole zonename [] h room = tt
All-IsWhole zonename (c ∷ cs) h room =
    (HasRoom-IsWhole zonename c h room.0, All-IsWhole zonename cs h room.1)

-- For a zone's name of at most FW3_ZONE_MAXNAMELEN bytes, each name in the table of zone chains is
-- written whole, and with its NUL fits the 29 bytes of an extension's name.
pub zone_chains_fit :
    (zonename : CString) → length zonename ≤ zone_maxnamelen → All (IsWhole zonename) zone_chains
zone_chains_fit zonename h = All-IsWhole zonename zone_chains h zone_chains-HasRoom
