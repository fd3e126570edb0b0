-- ===== src/Rules/Expand/Stands.antt =====
-- The chains to which the rules of a loaded section are appended.
use firewall.Common.{
  ℕ, ◌≤◌, Bool, true, false, not, ◌||◌, List, [], ◌∷◌, ◌++◌, Option, none, some, ◌≡◌, ◌⊎◌, refl,
  sym, ap, ◌∙◌, arith, ◌==◌, is_some, if◌then◌else◌, length, length-append, append_assoc, get_elem?,
  All, All-get_elem?, Bool-cases, Option-cases, inl, inr,
}
use firewall.Common.CString.{CString, codes, elem, streq, snprintf, snprintf_fits}
use firewall.Options.Flag
use firewall.Options.Table
use firewall.Options.Types.{ChainSpec, Zone}
use firewall.Options.Types.Config.{Rule, State, Ipset}
use firewall.Utils.Flags.{is_family}
use firewall.Iptables.{Handle, IptRule, IptCall, append}
use firewall.Zones.ChainNames.{zone_chains, format_chain, zone_maxnamelen}
use firewall.Zones.ChainNames.Fits.{IsWhole, expand, zone_chains_fit}
use firewall.Zones.Chains.Exists.{
  Creates, input_chain_exists, output_chain_exists, forward_chain_exists,
}
use firewall.Rules.Load.{load_rules}
use firewall.Rules.Load.Served.{Served}
use firewall.Rules.Load.Invariant.{load_rules-AllServed}
use firewall.Rules.Print.{append_chain, filter_chain, mangle_chain}
use firewall.Rules.Expand.{expand_rule, is_printed, zone_is_family}
use firewall.Rules.Expand.Place.{table_of, AppendsTo, expand_rule-AppendsTo}

-- The zone whose chain holds a rule of the filter table: its source, or else its destination.
abbrev pub owner : Rule → Option ℕ
owner r = if r.src.set then r.src_zone else r.dest_zone

-- Packets from a source are forwarded if there is a destination, and otherwise come in; all others go out.
abbrev pub builtin_of : Rule → CString
builtin_of r =
    if r.src.set then (if r.dest.set then codes "FORWARD" else codes "INPUT") else codes "OUTPUT"

abbrev pub word_of : Rule → CString
word_of r =
    if r.src.set then (if r.dest.set then codes "_forward" else codes "_input") else codes "_output"

-- Without a zone the built-in chain; with one its own chain, which the printing of the zone creates.
abbrev pub InFilter : ℕ → Bool → List Zone → Rule → CString → Type 0
InFilter f reload zones r chain =
    ((owner r ≡ none) × (chain ≡ builtin_of r))
    ⊎ ((i : ℕ) × (z : Zone) × (owner r ≡ some i)
        × (get_elem? zones i ≡ some z)
        × (chain ≡ codes "zone_" ++ z.name ++ word_of r)
        × Creates f reload z chain)

-- The entry of the chain table for the target, with the name of the source.
abbrev pub InRaw : List Zone → Rule → CString → Type 0
InRaw zones r chain =
    (i : ℕ) × (z : Zone) × (k : ℕ) × (c : ChainSpec) × (r.src_zone ≡ some i)
    × (get_elem? zones i ≡ some z)
    × (get_elem? zone_chains k ≡ some c)
    × (c.table ≡ Table.raw)
    × (c.flag ≡ r.target)
    × (format_chain c.format z.name ≡ chain)

-- The built-in chains in which a rule can match the device by which a packet came in.
abbrev inbound : List CString
inbound = codes "FORWARD" ∷ codes "PREROUTING" ∷ codes "INPUT" ∷ []

-- Those in which it can match the device by which a packet goes out.
abbrev outbound : List CString
outbound = codes "FORWARD" ∷ codes "POSTROUTING" ∷ codes "OUTPUT" ∷ []

-- A built-in chain in which the devices of the zones, which the rule matches, can be matched.
abbrev pub InMangle : Rule → CString → Type 0
InMangle r chain =
    (elem chain (inbound ++ outbound) ≡ true)
    × ((not (is_some r.src_zone) || elem chain inbound) ≡ true)
    × ((not (is_some r.dest_zone) || elem chain outbound) ≡ true)

abbrev pub Stands : ℕ → Bool → List Zone → Rule → CString → Type 0
Stands f reload zones r chain =
    ((table_of r.target ≡ Table.raw) × InRaw zones r chain)
    ⊎ (((table_of r.target ≡ Table.mangle) × InMangle r chain)
        ⊎ ((table_of r.target ≡ Table.filter) × InFilter f reload zones r chain))

abbrev pub IsShort : Zone → Type 0
IsShort z = length z.name ≤ zone_maxnamelen

abbrev chain_text : CString → CString → CString
chain_text name word = codes "zone_" ++ name ++ word

chain_text_fits :
    (name word : CString)
    → length name ≤ zone_maxnamelen
    → length word ≤ 11
    → snprintf 32 (chain_text name word) ≡ chain_text name word
chain_text_fits name word short small =
    snprintf_fits 32 (chain_text name word) (omega (arith, length-append name word))

word_exists :
    (f : ℕ) (reload : Bool) (z : Zone) (r : Rule)
    → is_family z.family f ≡ true
    → IsShort z
    → Creates f reload z (chain_text z.name (word_of r))
word_exists f reload z r fam short = elim (Bool-cases r.src.set) [
  | inr off ↦ rw off (output_chain_exists f reload z fam short)
  | inl on ↦ elim (Bool-cases r.dest.set) [
    | inl there ↦ rw (on, there) (forward_chain_exists f reload z fam short)
    | inr here ↦ rw (on, here) (input_chain_exists f reload z fam short)
  ]
]

length-word_of : (r : Rule) → length (word_of r) ≤ 11
length-word_of r = ground arith

module _ (zones : List Zone) (r : Rule) (served : Served zones r) where
  owner_name : CString
  owner_name = if r.src.set then r.src.name else r.dest.name

  -- The zone of a rule of the filter table, and its name.
  owner_zone :
      (i : ℕ) → owner r ≡ some i → (z : Zone) × (get_elem? zones i ≡ some z) × (z.name ≡ owner_name)
  unfolding owner_name
  owner_zone i e = elim (Bool-cases r.src.set) [
    | inl on ↦ let (z, at, called) = served.source i (ground arith) in (z, at, rw on called)
    | inr off ↦
        let (z, at, called, on4, on6) = served.dest i (ground arith) in (z, at, rw off called)
  ]

  filter_named :
      (i : ℕ) → owner r ≡ some i → filter_chain r ≡ snprintf 32 (chain_text owner_name (word_of r))
  unfolding filter_chain owner_name
  filter_named i e = elim (Bool-cases r.src.set) [
    | inl on ↦
        let at : r.src_zone ≡ some i = ground arith in
        let not_any : r.src.any ≡ false = ground (arith, served.source_set i at) in
        elim (Bool-cases r.dest.set) [
          | inl there ↦ rw (on, there, not_any)
          | inr here ↦ rw (on, here, not_any)
        ]
    | inr off ↦
        let at : r.dest_zone ≡ some i = ground arith in
        let not_any : r.dest.any ≡ false = ground (arith, served.dest_set i at) in
        let there : r.dest.set ≡ true = ground (arith, served.dest_set i at) in
        rw (off, there, not_any)
  ]

  filter_builtin : owner r ≡ none → filter_chain r ≡ builtin_of r
  unfolding filter_chain
  filter_builtin e = elim (Bool-cases r.src.set) [
    | inl on ↦
        let at : r.src_zone ≡ none = ground arith in
        let any : r.src.any ≡ true = ground (arith, served.no_source at) in
        elim (Bool-cases r.dest.set) [
          | inl there ↦ rw (on, there, any)
          | inr here ↦ rw (on, here, any)
        ]
    | inr off ↦
        let at : r.dest_zone ≡ none = ground arith in
        elim (Bool-cases r.dest.set) [
          | inl there ↦
              let any : r.dest.any ≡ true = ground (arith, served.no_dest at) in
              rw (off, there, any)
          | inr here ↦ rw (off, here)
        ]
  ]

  module _ (f : ℕ) (reload : Bool) (short : All IsShort zones)
      (fam : zone_is_family zones r.src_zone f ≡ true)
      (fam' : zone_is_family zones r.dest_zone f ≡ true) where
    owner_family :
        (i : ℕ) (z : Zone)
        → owner r ≡ some i
        → get_elem? zones i ≡ some z
        → is_family z.family f ≡ true
    owner_family i z e at = elim (Bool-cases r.src.set) [
      | inl on ↦ let e' : r.src_zone ≡ some i = ground arith in ground (arith, fam)
      | inr off ↦ let e' : r.dest_zone ≡ some i = ground arith in ground (arith, fam')
    ]

    filter-InFilter : InFilter f reload zones r (filter_chain r)
    filter-InFilter = elim (Option-cases (owner r)) [
      | inl e ↦ inl (e, filter_builtin e)
      | inr (i, e) ↦
          let (z, at, called) = owner_zone i e in
          let small : IsShort z = All-get_elem? IsShort zones i z short at in
          let chain : filter_chain r ≡ chain_text z.name (word_of r) =
            filter_named i e
            ∙ ap (λ n. snprintf 32 (chain_text n (word_of r))) (sym called)
            ∙ chain_text_fits z.name (word_of r) small (length-word_of r) in
          inr
            (i, z, e, at, chain, rw chain (word_exists f reload z r (owner_family i z e at) small))
    ]

    -- The name that `append_chain` writes for a target of the raw table is that of the table's entry.
    raw-InRaw :
        (k : ℕ) (c : ChainSpec) (word : CString)
        → is_some r.src_zone ≡ true
        → get_elem? zone_chains k ≡ some c
        → c.table ≡ Table.raw
        → c.flag ≡ r.target
        → length word ≤ 11
        → ((name : CString) → expand c.format name ≡ chain_text name word)
        → InRaw zones r (snprintf 32 (chain_text r.src.name word))
    raw-InRaw k c word sourced entry raw same small form = elim (Option-cases r.src_zone) [
      | inl e ↦ absurd (ground arith)
      | inr (i, e) ↦
          let (z, at, called) = served.source i e in
          let tiny : IsShort z = All-get_elem? IsShort zones i z short at in
          let whole : IsWhole z.name c =
            All-get_elem? (IsWhole z.name) zone_chains k c (zone_chains_fit z.name tiny) entry in
          (
            i,
            z,
            k,
            c,
            e,
            at,
            entry,
            raw,
            same,
            whole.0
                ∙ form z.name
                ∙ sym (chain_text_fits z.name word tiny small)
                ∙ ap (λ n. snprintf 32 (chain_text n word)) called,
          )
    ]

    notrack-InRaw :
        (r.target == Flag.notrack) ≡ true
        → InRaw zones r (snprintf 32 (chain_text r.src.name (codes "_notrack")))
    unfolding zone_chains expand
    notrack-InRaw e =
        let sourced : is_some r.src_zone ≡ true = ground (arith, served.raw_source) in
        raw-InRaw 12 _ (codes "_notrack") sourced refl refl (ground arith) (omega arith)
          (λ name. simp append_assoc)

    helper-InRaw :
        (r.target == Flag.helper) ≡ true
        → InRaw zones r (snprintf 32 (chain_text r.src.name (codes "_helper")))
    unfolding zone_chains expand
    helper-InRaw e =
        let sourced : is_some r.src_zone ≡ true = ground (arith, served.raw_source) in
        raw-InRaw 11 _ (codes "_helper") sourced refl refl (ground arith) (omega arith)
          (λ name. simp append_assoc)

    mangle-InMangle : InMangle r (mangle_chain r)
    unfolding mangle_chain elem streq
    mangle-InMangle = elim (Option-cases r.src_zone) [
      | inl e ↦ elim (Option-cases r.dest_zone) [
        | inl e' ↦ ground (arith, served.no_source e, served.no_dest e')
        | inr (j, e') ↦ ground (arith, served.no_source e, served.dest_set j e')
      ]
      | inr (i, e) ↦ elim (Option-cases r.dest_zone) [
        | inl e' ↦ ground (arith, served.source_set i e, served.no_dest e')
        | inr (j, e') ↦ ground (arith, served.source_set i e, served.dest_set j e')
      ]
    ]

    append_chain-Stands : Stands f reload zones r (append_chain r)
    unfolding append_chain
    append_chain-Stands = elim (Bool-cases (r.target == Flag.notrack)) [
      | inl e ↦ inl (rw e refl, rw e (notrack-InRaw e))
      | inr not_notrack ↦ elim (Bool-cases (r.target == Flag.helper)) [
        | inl e ↦ inl (rw (not_notrack, e) refl, rw (not_notrack, e) (helper-InRaw e))
        | inr not_helper ↦ elim (Bool-cases (r.target == Flag.mark || r.target == Flag.dscp)) [
          | inl e ↦ inr (
              inl (
                rw (not_notrack, not_helper, e) refl,
                rw (not_notrack, not_helper, e) mangle-InMangle,
              ))
          | inr not_mangle ↦ inr (
              inr (
                rw (not_notrack, not_helper, not_mangle) refl,
                rw (not_notrack, not_helper, not_mangle) filter-InFilter,
              ))
        ]
      ]
    ]

-- The zone of a rule that is printed concerns the open family.
is_printed-families :
    (h : Handle) (exists : Ipset → Bool) (state : State) (r : Rule)
    → is_printed h exists state r ≡ true
    → (zone_is_family state.zones r.src_zone h.family ≡ true)
      × (zone_is_family state.zones r.dest_zone h.family ≡ true)
unfolding is_printed
is_printed-families h exists state r on = ground arith

-- A call that appends a rule to a chain where the rule belongs.
abbrev pub AppendsWell : ℕ → Bool → List Zone → Rule → IptCall → Type 0
AppendsWell f reload zones r call =
    (rule : IptRule) × (chain : CString) × (call ≡ append rule chain)
    × Stands f reload zones r chain

All-AppendsWell :
    (f : ℕ) (reload : Bool) (zones : List Zone) (r : Rule) (chain : CString) (calls : List IptCall)
    → Stands f reload zones r chain
    → All (AppendsTo chain) calls
    → All (AppendsWell f reload zones r) calls
All-AppendsWell f reload zones r chain [] stands all = tt
All-AppendsWell f reload zones r chain (c ∷ calls) stands all =
    ((all.0.0, chain, all.0.1, stands), All-AppendsWell f reload zones r chain calls stands all.1)

-- For a rule that `fw3_load_rules` keeps, and zones with names of at most eleven bytes: each call that the
-- expansion of the rule makes appends a rule to a chain of the table that its target calls for. A NOTRACK
-- or HELPER rule goes to the chain that the table of zone chains has for the target and the source. A MARK
-- or DSCP rule goes to a built-in chain: to FORWARD, PREROUTING or INPUT if it has a source zone, and to
-- FORWARD, POSTROUTING or OUTPUT if it has a destination zone. Any other rule goes, with no zone, to
-- FORWARD, INPUT or OUTPUT as it has a source and a destination, and otherwise to the forward or input
-- chain of its source, or to the output chain of its destination, which the printing of that zone in the
-- filter table of the family creates.
pub load_rules-Stands :
    (loaded : State) (sections : List (Bool × Rule)) (n : ℕ) (r : Rule) (h : Handle)
    (exists : Ipset → Bool) (num : ℕ) (reload : Bool)
    → get_elem? (load_rules loaded sections).rules n ≡ some r
    → All IsShort (load_rules loaded sections).zones
    → All
        (AppendsWell h.family reload (load_rules loaded sections).zones r)
        (expand_rule h exists (load_rules loaded sections) r num).1
load_rules-Stands loaded sections n r h exists num reload at short =
    let state : State = load_rules loaded sections in
    let served : Served state.zones r =
      All-get_elem? (Served state.zones) state.rules n r (load_rules-AllServed loaded sections)
        at in
    elim (Bool-cases (is_printed h exists state r)) [
      | inr off ↦ unfold expand_rule in rw off tt
      | inl on ↦
          let (fam, fam') = is_printed-families h exists state r on in
          All-AppendsWell h.family reload state.zones r (append_chain r) _
            (append_chain-Stands state.zones r served h.family reload short fam fam')
            (expand_rule-AppendsTo h exists state r num)
    ]
