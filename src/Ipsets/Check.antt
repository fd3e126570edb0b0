-- ===== src/Ipsets/Check.antt =====
-- `check_types`, `check_ipset` and `fw3_load_ipsets`. A check that fails returns none: the set is
-- freed, and no other part of the state is written.
use firewall.Common.{
  ℕ, ◌+◌, ◌*◌, ◌^◌, Bool, true, false, not, ◌&&◌, ◌||◌, List, [], ◌∷◌, ◌++◌, Option, none, some,
  ◌==◌, leb, null, is_some, if◌then◌else◌, guard, ◌>>=◌, ◌>>◌,
}
use firewall.Common.Bits.{hasbit}
use firewall.Common.CString.{CString}
use firewall.Options.Family
use firewall.Options.IpsetMethod
use firewall.Options.IpsetType
use firewall.Options.Types.Config.{Ipset, IpsetDatatype, State}

-- The bits of `enum ipset_optflag`, by their place.
abbrev pub opt_iprange : ℕ
opt_iprange = 0

abbrev pub opt_portrange : ℕ
opt_portrange = 1

abbrev pub opt_netmask : ℕ
opt_netmask = 2

abbrev pub opt_hashsize : ℕ
opt_hashsize = 3

abbrev pub opt_maxelem : ℕ
opt_maxelem = 4

abbrev pub opt_family : ℕ
opt_family = 5

-- `struct ipset_type`.
pub record IpsetKind : Type 0 where
  pub method : ℕ
  pub types : ℕ
  pub required : ℕ
  pub optional : ℕ

-- `T(m, t1, t2, t3, r, o)`: the bytes of the three types do not overlap, so `|` is `+`.
abbrev kind : ℕ → ℕ → ℕ → ℕ → ℕ → ℕ → IpsetKind
kind m t1 t2 t3 r o = record {
  method = m;
  types = t1 + t2 * 2 ^ 8 + t3 * 2 ^ 16;
  required = r;
  optional = o;
}

-- OPT_FAMILY | OPT_HASHSIZE | OPT_MAXELEM.
abbrev hash_opts : ℕ
hash_opts = 2 ^ opt_family + 2 ^ opt_hashsize + 2 ^ opt_maxelem

unfoldable pub ipset_types : List IpsetKind
ipset_types =
    kind IpsetMethod.bitmap IpsetType.ip 0 0 (2 ^ opt_iprange) (2 ^ opt_netmask)
    ∷ kind IpsetMethod.bitmap IpsetType.ip IpsetType.mac 0 (2 ^ opt_iprange) 0
    ∷ kind IpsetMethod.bitmap IpsetType.port 0 0 (2 ^ opt_portrange) 0
    ∷ kind IpsetMethod.hash IpsetType.ip 0 0 0 (hash_opts + 2 ^ opt_netmask)
    ∷ kind IpsetMethod.hash IpsetType.net 0 0 0 hash_opts
    ∷ kind IpsetMethod.hash IpsetType.ip IpsetType.port 0 0 hash_opts
    ∷ kind IpsetMethod.hash IpsetType.net IpsetType.port 0 0 hash_opts
    ∷ kind IpsetMethod.hash IpsetType.ip IpsetType.port IpsetType.ip 0 hash_opts
    ∷ kind IpsetMethod.hash IpsetType.ip IpsetType.port IpsetType.net 0 hash_opts
    ∷ kind IpsetMethod.set_list IpsetType.set 0 0 0 (2 ^ opt_maxelem)
    ∷ []

-- The loop over the datatypes, from the place `i` on: the sum of `type << (i * 8)`, or none for a
-- fourth type. A type is a byte, so that `|` is `+`.
unfoldable pub type_list : ℕ → List IpsetDatatype → Option ℕ
type_list i [] = some 0
type_list i (t ∷ types) = elim (leb 3 i) [
  | true ↦ none
  | false ↦ elim (type_list (i + 1) types) [
    | none ↦ none
    | some rest ↦ some (t.type * 2 ^ (i * 8) + rest)
  ]
]

-- The first loop over the table: the method that is assumed where none is given.
unfoldable pub assume_method : List IpsetKind → ℕ → ℕ → ℕ
assume_method [] family types = IpsetMethod.unspec
assume_method (k ∷ kinds) family types =
    elim ((family == Family.v4 || hasbit k.optional opt_family) && k.types == types) [
      | true ↦ k.method
      | false ↦ assume_method kinds family types
    ]

-- The options that the kind does not have are ignored.
unfoldable pub ignore_options : IpsetKind → Ipset → Ipset
ignore_options k s = record s {
  iprange = if hasbit k.required opt_iprange then s.iprange else record s.iprange { set = false };
  portrange =
      if hasbit k.required opt_portrange then s.portrange else record s.portrange { set = false };
  netmask = if hasbit k.optional opt_netmask then s.netmask else 0;
  hashsize = if hasbit k.optional opt_hashsize then s.hashsize else 0;
  maxelem = if hasbit k.optional opt_maxelem then s.maxelem else 0;
  family = if hasbit k.optional opt_family then s.family else Family.v4;
}

-- The body of the second loop, at the kind that matches.
unfoldable pub match_kind : IpsetKind → Ipset → Option Ipset
unfolding ignore_options
match_kind k s =
    if is_some s.external
    then some s
    else if hasbit k.required opt_iprange && not s.iprange.set
    then none
    else if hasbit k.required opt_portrange && not s.portrange.set
    then none
    else some (ignore_options k s)

-- The second loop: the first kind with the method and the types.
unfoldable pub find_kind : List IpsetKind → ℕ → Ipset → Option Ipset
unfolding match_kind
find_kind [] types s = none
find_kind (k ∷ kinds) types s = elim (k.method == s.method && k.types == types) [
  | true ↦ match_kind k s
  | false ↦ find_kind kinds types s
]

unfoldable pub check_types : Ipset → Option Ipset
unfolding find_kind
check_types s = do
  types ← type_list 0 s.datatypes
  find_kind ipset_types types (record s {
    method =
        if s.method == IpsetMethod.unspec
        then assume_method ipset_types s.family types
        else s.method;
  })

-- An empty `external` is none; a set with no name takes that of the external set.
unfoldable pub name_external : Ipset → Ipset
name_external s = elim s.external [
  | none ↦ s
  | some [] ↦ record s { external = none }
  | some (c ∷ ext) ↦ record s { name = elim s.name [ none ↦ some (c ∷ ext) | some n ↦ some n ] }
]

-- `!name || !*name` is false.
abbrev pub has_text : Option CString → Bool
has_text none = false
has_text (some name) = not (null name)

unfoldable pub check_ipset : Ipset → Option Ipset
unfolding check_types name_external
check_ipset s = do
  guard s.enabled
  let named = name_external s
  guard (has_text named.name)
  guard (not (named.family == Family.any))
  guard (not (named.iprange.set && not (named.family == named.iprange.family)))
  guard (not (null named.datatypes))
  check_types named

-- One turn of either loop of `fw3_load_ipsets`. A section of the configuration is checked even when
-- its options are invalid; one from ubus is not, and `valid` is then false.
unfoldable pub load_ipset : List Ipset → Bool × Ipset → List Ipset
unfolding check_ipset
load_ipset sets (valid, s) = elim valid [
  | false ↦ sets
  | true ↦ elim (check_ipset s) [ none ↦ sets | some s' ↦ sets ++ s' ∷ [] ]
]

unfoldable pub load_sections : List Ipset → List (Bool × Ipset) → List Ipset
unfolding load_ipset
load_sections sets [] = sets
load_sections sets (s ∷ sections) = load_sections (load_ipset sets s) sections

unfoldable pub load_ipsets : State → List (Bool × Ipset) → State
unfolding load_sections
load_ipsets state sections = record state {
  ipsets = if state.disable_ipsets then [] else load_sections [] sections;
}
