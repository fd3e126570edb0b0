-- ===== src/Rules/Print/Notrack.antt =====
-- A NOTRACK rule with a source and no destination is appended to a chain that is not created: the
-- check sets no NOTRACK bit on the source's zone.
use firewall.Common.{
  ℕ, Bool, false, List, [], ◌∷◌, ◌++◌, Option, none, some, ◌≡◌, refl, sym, ap, ◌∙◌, arith,
  get_elem?, ℕ_discrete, All-get_elem?, length-append, length, ◌≤◌, Bool-cases, inl, inr, ◌⊎◌,
}
use firewall.Common.CString.{CString, codes, elem, streq, snprintf, snprintf_fits}
use firewall.Options.Family
use firewall.Options.Flag
use firewall.Options.Table
use firewall.Options.Types.{Zone}
use firewall.Options.Types.Config.{Rule, State}
use firewall.Utils.Flags.{has, has-set, is_family}
use firewall.Zones.ChainNames.Fits.{IsWhole, expand, zone_chains_fit}
use firewall.Zones.ChainNames.{zone_maxnamelen}
use firewall.Utils.Flags
use firewall.Iptables.{Handle}
use firewall.Iptables.Chains.{created, selected}
use firewall.Zones.ChainNames.{zone_chains, format_chain}
use firewall.Zones.Chains.{print_zone_chain, mark_table}
use firewall.Zones.Chains.Pairing.{chain_names, created-print_zone_chain}
use firewall.Rules.Check.{check_rule, mark_zones, need_src_action_chain, to_src_target}
use firewall.Rules.Load.Served.{check_rule-Checked, resolve_zone-Named}
use firewall.Zones.Lookup.{modify, set_both, get_elem?-modify_self, get_elem?-modify_ne}
use firewall.Rules.Print.{append_chain}

streq-append : (a b c : CString) → streq (a ++ b) (a ++ c) ≡ streq b c
unfolding streq
streq-append [] b c = refl
streq-append (x ∷ a) b c = ground (arith, streq-append a b c)

-- The raw table of a family.
abbrev pub raw_of : ℕ → Handle
raw_of family = record { family = family; table = Table.raw }

has-mark_table_raw :
    (f : ℕ) (z : Zone)
    → has z.flags f Flag.notrack ≡ false
    → has (mark_table (raw_of f) z).flags f Flag.notrack ≡ false
unfolding mark_table
has-mark_table_raw f z off = ground (
  arith,
  has-set z.flags f Table.raw f Flag.notrack,
  has-set (Flags.set z.flags f Table.raw) f Flag.custom_chains f Flag.notrack,
)

-- In the raw table a zone with no NOTRACK bit takes at most the chain for helpers.
raw_names :
    (f : ℕ) (z : Zone)
    → has z.flags f Flag.notrack ≡ false
    → (chain_names (raw_of f) z ≡ [])
      ⊎ (chain_names (raw_of f) z ≡ format_chain (codes "zone_?_helper") z.name ∷ [])
unfolding chain_names selected zone_chains is_family
raw_names f z off = elim (Bool-cases (has z.flags f Flag.helper)) [
  | inl on ↦ inr (ground arith)
  | inr none' ↦ inl (ground arith)
]

-- The chain of a NOTRACK rule is not the chain for helpers of its zone.
notrack-ne-helper :
    (name : CString)
    → length name ≤ zone_maxnamelen
    → streq
        (snprintf 32 (codes "zone_" ++ name ++ codes "_notrack"))
        (format_chain (codes "zone_?_helper") name)
      ≡ false
unfolding expand streq zone_chains
notrack-ne-helper name short =
    let whole : format_chain (codes "zone_?_helper") name ≡ expand (codes "zone_?_helper") name =
      (All-get_elem? (IsWhole name) zone_chains 11 _ (zone_chains_fit name short) refl).0 in
    rw
      (
        whole,
        snprintf_fits 32 (codes "zone_" ++ name ++ codes "_notrack")
            (omega (arith, length-append name (codes "_notrack"))),
      )
      (streq-append name (codes "_notrack") (codes "_helper"))

abbrev Untouched : List Zone → ℕ → ℕ → Zone → Type 0
Untouched zones i f z =
    (z' : Zone) × (get_elem? zones i ≡ some z')
    × (z'.name ≡ z.name)
    × (has z'.flags f Flag.notrack ≡ has z.flags f Flag.notrack)

set_both-notrack :
    (f : ℕ) (z : Zone)
    → has (set_both (to_src_target Flag.notrack) z).flags f Flag.notrack
      ≡ has z.flags f Flag.notrack
unfolding set_both
set_both-notrack f z = ground (
  arith,
  has-set z.flags Family.v4 (to_src_target Flag.notrack) f Flag.notrack,
  has-set (Flags.set z.flags Family.v4 (to_src_target Flag.notrack)) Family.v6
      (to_src_target Flag.notrack) f Flag.notrack,
)

modify-notrack :
    (zones : List Zone) (s i f : ℕ) (z : Zone)
    → get_elem? zones i ≡ some z
    → Untouched (modify s (set_both (to_src_target Flag.notrack)) zones) i f z
modify-notrack zones s i f z at = elim (ℕ_discrete s i) [
  | yes e ↦ (
    set_both (to_src_target Flag.notrack) z,
    rw e (get_elem?-modify_self zones i (set_both (to_src_target Flag.notrack)) z at),
    unfold set_both in refl,
    set_both-notrack f z,
  )
  | no ne ↦
      (z, get_elem?-modify_ne zones s i (set_both (to_src_target Flag.notrack)) ne ∙ at, refl, refl)
]

mark_zones-notrack :
    (zones : List Zone) (s : Option ℕ) (i f : ℕ) (z : Zone)
    → get_elem? zones i ≡ some z
    → Untouched (mark_zones zones s none Flag.notrack) i f z
unfolding mark_zones
mark_zones-notrack zones none i f z at = (z, at, refl, refl)
mark_zones-notrack zones (some s) i f z at =
    elim (Bool-cases (need_src_action_chain zones (some s) Flag.notrack)) [
      | inl on ↦ rw on (modify-notrack zones s i f z at)
      | inr off ↦ rw off (z, at, refl, refl)
    ]

chain_missing :
    (f : ℕ) (reload : Bool) (z : Zone)
    → length z.name ≤ zone_maxnamelen
    → has z.flags f Flag.notrack ≡ false
    → elem
        (snprintf 32 (codes "zone_" ++ z.name ++ codes "_notrack"))
        (created (print_zone_chain (raw_of f) reload z).1)
      ≡ false
unfolding elem
chain_missing f reload z short off = elim (Bool-cases (is_family z.family f)) [
  | inr other ↦ unfold print_zone_chain in rw other
  | inl fam ↦
      rw (created-print_zone_chain (raw_of f) reload z fam)
        (elim (raw_names f (mark_table (raw_of f) z) (has-mark_table_raw f z off)) [
          | inl e ↦ rw e
          | inr e ↦ rw e (unfold mark_table in ground (arith, notrack-ne-helper z.name short))
        ])
]

-- For an accepted rule with target NOTRACK that names a source and no destination, whose source's
-- zone has a name of at most eleven bytes and no NOTRACK bit: the chain to which the rule is
-- appended is not among those that the printing of the zone creates in the raw table.
pub notrack_chain_missing :
    (state state' : State) (r r' : Rule) (i f : ℕ) (reload : Bool) (z : Zone)
    → check_rule state r ≡ some (state', r')
    → r'.target ≡ Flag.notrack
    → r'.dest_zone ≡ none
    → r'.src_zone ≡ some i
    → get_elem? state.zones i ≡ some z
    → length z.name ≤ zone_maxnamelen
    → has z.flags f Flag.notrack ≡ false
    → (z' : Zone) × (get_elem? state'.zones i ≡ some z')
      × (elem (append_chain r') (created (print_zone_chain (raw_of f) reload z').1) ≡ false)
notrack_chain_missing state state' r r' i f reload z h t no_dest src at short off =
    let (hs, hd, ez, er) = check_rule-Checked state state' r r' h in
    let (z', at', name, bit) = mark_zones-notrack state.zones (some i) i f z at in
    let (y, aty, called) = resolve_zone-Named state.zones r'.src i (hs ∙ ap some src) in
    let same : y ≡ z = ground arith in
    let named : z'.name ≡ r'.src.name = name ∙ ap (λ (w : Zone). w.name) (sym same) ∙ called in
    let e : append_chain r' ≡ snprintf 32 (codes "zone_" ++ z'.name ++ codes "_notrack") =
      unfold append_chain in rw (t, named) in
    (z', rw (ez, src, no_dest, t) at', rw e (chain_missing f reload z' (rw name short) (bit ∙ off)))
