-- ===== src/Ipsets/Supported.antt =====
-- What holds of a set that `check_ipset` accepts.
use firewall.Common.{
  is_some, ℕ, suc, ◌+◌, ◌≤◌, true, false, not, ◌&&◌, List, [], ◌∷◌, none, some, ◌≡◌, ◌≢◌, refl, ap,
  sym, ◌∙◌, arith, ◌==◌, null, length, get_elem?, All, All-get_elem?, if◌then◌else◌, Bool-cases,
  Option-cases, ◌||◌, ◌⊎◌, inl, inr,
}
use firewall.Common.Bits.{hasbit}
use firewall.Options.Family
use firewall.Options.IpsetMethod
use firewall.Options.Types.Config.{Ipset, IpsetDatatype}
use firewall.Ipsets.Check.{
  IpsetKind, ipset_types, type_list, match_kind, find_kind, check_types, check_ipset, has_text,
  name_external, assume_method, opt_iprange, opt_portrange, opt_netmask, opt_hashsize, opt_maxelem,
  opt_family,
}

-- The set has the options that its kind requires, and none that its kind does not have.
pub record HasOptions (k : IpsetKind) (s : Ipset) : Type 0 where
  pub iprange : s.iprange.set ≡ hasbit k.required opt_iprange
  pub portrange : s.portrange.set ≡ hasbit k.required opt_portrange
  pub netmask : (hasbit k.optional opt_netmask || s.netmask == 0) ≡ true
  pub hashsize : (hasbit k.optional opt_hashsize || s.hashsize == 0) ≡ true
  pub maxelem : (hasbit k.optional opt_maxelem || s.maxelem == 0) ≡ true
  pub family : (hasbit k.optional opt_family || s.family == Family.v4) ≡ true

-- The kind of the set is in the table.
abbrev pub HasKind : List IpsetKind → Ipset → Type 0
HasKind kinds s =
    (n : ℕ) × (k : IpsetKind) × (get_elem? kinds n ≡ some k)
    × (k.method ≡ s.method)
    × (type_list 0 s.datatypes ≡ some k.types)
    × ((is_some s.external ≡ true) ⊎ HasOptions k s)

pub record IsSupported (s : Ipset) : Type 0 where
  pub named : has_text s.name ≡ true
  pub family : s.family ≢ Family.any
  pub typed : null s.datatypes ≡ false
  pub few : length s.datatypes ≤ 3
  pub kind : HasKind ipset_types s

type_list_few :
    (i : ℕ) (types : List IpsetDatatype) (sum : ℕ)
    → i ≤ 3
    → type_list i types ≡ some sum
    → i + length types ≤ 3
unfolding type_list
type_list_few i [] sum le h = omega arith
type_list_few i (t ∷ types) sum le h = elim (Option-cases (type_list (i + 1) types)) [
  | inl missing ↦ absurd (ground arith)
  | inr (rest, found) ↦
      let lt : (i + 1) ≤ 3 = ground arith in
      omega (arith, type_list_few (i + 1) types rest lt found)
]

-- What the match leaves alone.
abbrev SameSet : Ipset → Ipset → Type 0
SameSet s s' =
    (s'.name ≡ s.name)
    × (s'.method ≡ s.method)
    × (s'.datatypes ≡ s.datatypes)
    × (s'.external ≡ s.external)
    × ((s.family ≢ Family.any) → s'.family ≢ Family.any)

match_kind-SameSet : (k : IpsetKind) (s s' : Ipset) → match_kind k s ≡ some s' → SameSet s s'
unfolding match_kind
match_kind-SameSet k s s' h = ground arith

match_kind-HasOptions :
    (k : IpsetKind) (s s' : Ipset) → match_kind k s ≡ some s' → s'.external ≡ none → HasOptions k s'
unfolding match_kind
match_kind-HasOptions k s s' h own = record {
  iprange = ground arith;
  portrange = ground arith;
  netmask = ground arith;
  hashsize = ground arith;
  maxelem = ground arith;
  family = ground arith;
}

options_or_external :
    (k : IpsetKind) (s s' : Ipset)
    → match_kind k s ≡ some s'
    → (is_some s'.external ≡ true) ⊎ HasOptions k s'
options_or_external k s s' h = elim (Option-cases s'.external) [
  | inl own ↦ inr (match_kind-HasOptions k s s' h own)
  | inr (name, e) ↦ inl (rw e refl)
]

find_kind-HasKind :
    (kinds : List IpsetKind) (types : ℕ) (s s' : Ipset)
    → type_list 0 s.datatypes ≡ some types
    → find_kind kinds types s ≡ some s'
    → SameSet s s' × HasKind kinds s'
unfolding find_kind
find_kind-HasKind [] types s s' t h = cc
find_kind-HasKind (k ∷ kinds) types s s' t h =
    elim (Bool-cases (k.method == s.method && k.types == types)) [
      | inl hit ↦
          let found : match_kind k s ≡ some s' = ground arith in
          let same = match_kind-SameSet k s s' found in
          let (_, _, kept, _, _) = same in
          let method : k.method ≡ s'.method = ground arith in
          let e : k.types ≡ types = ground arith in
          let datatypes : type_list 0 s'.datatypes ≡ some k.types = rw (kept, e) t in
          (same, (0, k, refl, method, datatypes, options_or_external k s s' found))
      | inr miss ↦
          let (same, (n, k', at, method, listed, options)) =
            find_kind-HasKind kinds types s s' t (ground arith) in
          (same, (suc n, k', at, method, listed, options))
    ]

-- A set that `check_types` accepts has its kind in the table, and otherwise is as it was.
check_types-HasKind :
    (s s' : Ipset)
    → check_types s ≡ some s'
    → (s'.name ≡ s.name)
      × (s'.datatypes ≡ s.datatypes)
      × ((s.family ≢ Family.any) → s'.family ≢ Family.any)
      × HasKind ipset_types s'
unfolding check_types
check_types-HasKind s s' h = elim (Option-cases (type_list 0 s.datatypes)) [
  | inl missing ↦ absurd (ground arith)
  | inr (types, found) ↦
      let assumed = record s {
        method =
            if s.method == IpsetMethod.unspec
            then assume_method ipset_types s.family types
            else s.method;
      } in
      let hit : find_kind ipset_types types assumed ≡ some s' = ground arith in
      let (same, kind) = find_kind-HasKind ipset_types types assumed s' found hit in
      let (name, _, datatypes, _, family) = same in (name, datatypes, family, kind)
]

check_ipset-guards :
    (s s' : Ipset)
    → check_ipset s ≡ some s'
    → (has_text (name_external s).name ≡ true)
      × ((name_external s).family ≢ Family.any)
      × (null (name_external s).datatypes ≡ false)
      × (check_types (name_external s) ≡ some s')
unfolding check_ipset
check_ipset-guards s s' h = ground arith

-- A set that `check_ipset` accepts has a name, a family other than `any`, one to three datatypes, and
-- a kind of the table with its method and its datatypes; where it is not external it has the range
-- that the kind requires and no other, and each option that the kind lacks is cleared.
pub check_ipset-IsSupported : (s s' : Ipset) → check_ipset s ≡ some s' → IsSupported s'
check_ipset-IsSupported s s' h =
    let (named, family, typed, checked) = check_ipset-guards s s' h in
    let (name, datatypes, keeps, kind) = check_types-HasKind (name_external s) s' checked in
    let (n, k, at, method, types, options) = kind in
    record {
      named = rw name named;
      family = keeps family;
      typed = rw datatypes typed;
      few = omega (arith, type_list_few 0 s'.datatypes k.types (omega arith) types);
      kind = kind;
    }

own_options :
    (k : IpsetKind) (s : Ipset)
    → s.external ≡ none
    → (is_some s.external ≡ true) ⊎ HasOptions k s
    → HasOptions k s
own_options k s own (inl external) = absurd (ground arith)
own_options k s own (inr has) = has

-- The kinds of the method `bitmap`.
abbrev IsBitmapKind : IpsetKind → Type 0
IsBitmapKind k =
    k.method ≡ IpsetMethod.bitmap
    → (hasbit k.required opt_iprange ≡ not (hasbit k.required opt_portrange))
      × (hasbit k.optional opt_hashsize ≡ false)
      × (hasbit k.optional opt_maxelem ≡ false)
      × (hasbit k.optional opt_family ≡ false)

bitmap_kinds : All IsBitmapKind ipset_types
unfolding ipset_types hasbit
bitmap_kinds = (
  λ _. (refl, refl, refl, refl),
  (
    λ _. (refl, refl, refl, refl),
    (
      λ _. (refl, refl, refl, refl),
      (
        λ e. absurd (ground arith),
        (
          λ e. absurd (ground arith),
          (
            λ e. absurd (ground arith),
            (
              λ e. absurd (ground arith),
              (
                λ e. absurd (ground arith),
                (λ e. absurd (ground arith), (λ e. absurd (ground arith), tt)),
              ),
            ),
          ),
        ),
      ),
    ),
  ),
)

-- A set that `check_ipset` accepts, that is not external and that is stored as a bitmap: it is an
-- IPv4 set with exactly one of an address range and a port range, and no hash options.
pub check_ipset-bitmap :
    (s s' : Ipset)
    → check_ipset s ≡ some s'
    → s'.external ≡ none
    → s'.method ≡ IpsetMethod.bitmap
    → (s'.family ≡ Family.v4)
      × (s'.iprange.set ≡ not s'.portrange.set)
      × (s'.hashsize ≡ 0)
      × (s'.maxelem ≡ 0)
check_ipset-bitmap s s' h own bitmap =
    let supported = check_ipset-IsSupported s s' h in
    let (n, k, at, method, types, options) = supported.kind in
    let has = own_options k s' own options in
    let (ranges, hashsize, maxelem, family) =
      All-get_elem? IsBitmapKind ipset_types n k bitmap_kinds at (method ∙ bitmap) in
    (
      ground (arith, has.family, family),
      has.iprange ∙ ranges ∙ ap not (sym has.portrange),
      ground (arith, has.hashsize, hashsize),
      ground (arith, has.maxelem, maxelem),
    )
