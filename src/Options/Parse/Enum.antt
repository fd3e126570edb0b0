-- ===== src/Options/Parse/Enum.antt =====
-- `parse_enum`, and the parsers that are calls of it.
use firewall.Common.{
  below, below-at, subst, ◌==◌, ℕ, zero, suc, ◌+◌, ◌-◌, ◌≤◌, ◌<◌, Bool, true, false, List, [], ◌∷◌,
  Option, none, some, ◌≡◌, refl, ap, arith, null, length, get_elem?, take, drop, if◌then◌else◌,
  Bool-cases, inl, inr, ◌>>=◌, All,
}
use firewall.Common.CString.{CString, codes, begins, begins_nocase}
use firewall.Options.Flag
use firewall.Options.IpsetMethod
use firewall.Options.IpsetType
use firewall.Options.RejectCode
use firewall.Options.Names.{
  flag_names, reject_code_names, ipset_method_names, ipset_type_names, name_at,
}
use firewall.Options.Types.Config.{IpsetDatatype}

-- The loop over the names, the first of which stands for `value`. A table is given from its name for
-- `min` to its name for `max`.
unfoldable pub find_enum : CString → List CString → ℕ → Option ℕ
find_enum val [] value = none
find_enum val (name ∷ names) value = elim (begins_nocase val name) [
  | true ↦ some value
  | false ↦ find_enum val names (suc value)
]

unfoldable pub parse_enum : CString → List CString → ℕ → Option ℕ
unfolding find_enum
parse_enum val names min = if null val then none else find_enum val names min

-- The names of ACCEPT to MASQUERADE.
abbrev pub target_names : List CString
target_names = take 10 (drop Flag.accept flag_names)

unfoldable pub parse_target : CString → Option ℕ
unfolding parse_enum
parse_target val = parse_enum val target_names Flag.accept

unfoldable pub parse_reject_code : CString → Option ℕ
unfolding parse_enum
parse_reject_code val = parse_enum val reject_code_names RejectCode.tcp_reset

unfoldable pub parse_ipset_method : CString → Option ℕ
unfolding parse_enum
parse_ipset_method val = parse_enum val (drop 1 ipset_method_names) IpsetMethod.bitmap

-- The direction and the name behind its prefix.
unfoldable pub datatype_dir : CString → CString × CString
datatype_dir val =
    if begins (codes "dest_") val
    then (codes "dst", drop 5 val)
    else if begins (codes "dst_") val
    then (codes "dst", drop 4 val)
    else if begins (codes "src_") val
    then (codes "src", drop 4 val)
    else (codes "src", val)

unfoldable pub parse_ipset_datatype : CString → Option IpsetDatatype
unfolding parse_enum datatype_dir
parse_ipset_datatype val = do
  let (dir, name) = datatype_dir val
  type ← parse_enum name (drop 1 ipset_type_names) IpsetType.ip
  some (record { type = type; dir = dir })

-- The value is that of the first name that the word begins, whatever the case.
abbrev pub IsFirst : CString → List CString → ℕ → ℕ → Type 0
IsFirst val names min value =
    (k : ℕ) × (name : CString) × (value ≡ min + k)
    × (get_elem? names k ≡ some name)
    × (begins_nocase val name ≡ true)
    × All (λ (other : CString). begins_nocase val other ≡ false) (take k names)

find_enum-IsFirst :
    (val : CString) (names : List CString) (min value : ℕ)
    → find_enum val names min ≡ some value
    → IsFirst val names min value
unfolding find_enum
find_enum-IsFirst val [] min value h = cc
find_enum-IsFirst val (name ∷ names) min value h = elim (Bool-cases (begins_nocase val name)) [
  | inl hit ↦ (0, name, ground arith, refl, hit, tt)
  | inr miss ↦
      let (k, found, e, at, hit, before) =
        find_enum-IsFirst val names (suc min) value (ground arith) in
      (suc k, found, omega arith, at, hit, (miss, before))
]

-- A word that `parse_enum` accepts: its value is that of the first name of the table that the word
-- begins, whatever the case.
pub parse_enum-IsFirst :
    (val : CString) (names : List CString) (min value : ℕ)
    → parse_enum val names min ≡ some value
    → IsFirst val names min value
unfolding parse_enum
parse_enum-IsFirst val names min value h = find_enum-IsFirst val names min value (ground arith)

pub get_elem?-lt :
    (names : List CString) (k : ℕ) (name : CString)
    → get_elem? names k ≡ some name
    → k < length names
get_elem?-lt [] k name h = cc
get_elem?-lt (n ∷ names) zero name h = omega arith
get_elem?-lt (n ∷ names) (suc k) name h = omega (arith, get_elem?-lt names k name h)

-- A word that `fw3_parse_target` accepts: its value is among ACCEPT to MASQUERADE.
parse_target-bounds :
    (val : CString) (t : ℕ) → parse_target val ≡ some t → (Flag.accept ≤ t) × (t ≤ Flag.masquerade)
unfolding parse_target flag_names
parse_target-bounds val t h =
    let (k, name, e, at, hit, before) = parse_enum-IsFirst val target_names Flag.accept t h in
    let lt : k < 10 = get_elem?-lt target_names k name at in (omega arith, omega arith)

-- The parser's answer is a value, as a test.
abbrev is_value : Option ℕ → ℕ → Bool
is_value none n = false
is_value (some m) n = m == n

is_value-some : (answer : Option ℕ) (n : ℕ) → is_value answer n ≡ true → answer ≡ some n
is_value-some none n h = cc
is_value-some (some m) n h = ap some (ground arith)

targets_read :
    below 10 (λ k. is_value (parse_target (name_at flag_names (k + Flag.accept))) (k + Flag.accept))
    ≡ true
unfolding parse_target begins_nocase flag_names name_at
targets_read = refl

-- The name of each target from ACCEPT to MASQUERADE is read back as that target.
pub parse_target-name_at :
    (t : ℕ) → Flag.accept ≤ t → t ≤ Flag.masquerade → parse_target (name_at flag_names t) ≡ some t
parse_target-name_at t low high =
    let e : t - Flag.accept + Flag.accept ≡ t = omega arith in
    subst (λ n. parse_target (name_at flag_names n) ≡ some n) e
      (is_value-some _ _ (
        below-at 10
          (λ k. is_value (parse_target (name_at flag_names (k + Flag.accept))) (k + Flag.accept))
          (t - Flag.accept) targets_read (omega arith)))
