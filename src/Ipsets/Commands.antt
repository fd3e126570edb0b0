-- ===== src/Ipsets/Commands.antt =====
-- `create_ipset` and `fw3_create_ipsets`: the text that goes to the ipset program. What the kernel,
-- the file system and the C library answer is a parameter: `inet_ntop`, the lines of a load file (none
-- if it does not open), whether a set is there (`fw3_check_ipset`), and whether the program starts.
use firewall.Common.{
  ℕ, Bool, true, false, not, ◌&&◌, ◌||◌, List, [], ◌∷◌, ◌++◌, map, Option, none, some, ◌==◌, ltb,
  keep, is_some, if◌then◌else◌, concat_map,
}
use firewall.Common.CString.{CString, codes, skip_spaces}
use firewall.Common.Number.{print_decimal}
use firewall.Options.Family
use firewall.Options.IpsetMethod
use firewall.Options.Names.{ipset_method_names, ipset_type_names, name_at}
use firewall.Options.Types.{InetAddr}
use firewall.Options.Types.Config.{Ipset, IpsetDatatype, State}
use firewall.Options.Address.{address_to_string}

-- The datatypes, with `:` before the first and `,` before the others.
unfoldable pub print_types : Bool → List IpsetDatatype → CString
print_types first [] = []
print_types first (t ∷ types) =
    (if first then codes ":" else codes ",")
    ++ (name_at ipset_type_names t.type ++ print_types false types)

-- `if (n > 0) fw3_pr(" <word> %u", n)`.
unfoldable pub print_option : CString → ℕ → CString
print_option word n = if ltb 0 n then codes " " ++ word ++ codes " " ++ print_decimal n else []

abbrev print_range : (InetAddr → CString) → Ipset → CString
print_range inet_ntop s =
    if s.iprange.set
    then codes " range " ++ address_to_string inet_ntop s.iprange false true
    else if s.portrange.set
    then codes " range "
      ++ print_decimal s.portrange.port_min
      ++ codes "-"
      ++ print_decimal s.portrange.port_max
    else []

abbrev print_timeout : Option ℕ → CString
print_timeout none = []
print_timeout (some n) = codes " timeout " ++ print_decimal n

abbrev pub name_text : Option CString → CString
name_text none = codes "(null)"
name_text (some name) = name

-- The `create` line.
unfoldable pub create_line : (InetAddr → CString) → Ipset → CString
unfolding print_types print_option
create_line inet_ntop s =
    codes "create "
    ++ name_text s.name
    ++ codes " "
    ++ name_at ipset_method_names s.method
    ++ print_types true s.datatypes
    ++ (if s.method == IpsetMethod.hash
        then codes " family inet" ++ (if s.family == Family.v4 then [] else codes "6")
        else [])
    ++ print_range inet_ntop s
    ++ print_timeout s.timeout
    ++ print_option (codes "maxelem") s.maxelem
    ++ print_option (codes "netmask") s.netmask
    ++ print_option (codes "hashsize") s.hashsize
    ++ (if s.counters then codes " counters" else [])
    ++ (if s.comment then codes " comment" else [])
    ++ codes "\n"

-- A line of a load file that is blank or a comment is passed over.
unfoldable pub is_entry : CString → Bool
is_entry line = elim (skip_spaces line) [ [] ↦ false | c ∷ rest ↦ not (c == b'#') ]

-- `load_file`. A line ends with its own newline.
unfoldable pub load_file : (CString → Option (List CString)) → Ipset → List CString
unfolding is_entry
load_file read s = elim s.loadfile [
  | none ↦ []
  | some path ↦ elim (read path) [
    | none ↦ []
    | some lines ↦
        map (λ line. codes "add " ++ name_text s.name ++ codes " " ++ line) (keep is_entry lines)
  ]
]

unfoldable pub create_ipset :
    (InetAddr → CString) → (CString → Option (List CString)) → Ipset → List CString
unfolding create_line load_file
create_ipset inet_ntop read s =
    create_line inet_ntop s
    ∷ (map (λ entry. codes "add " ++ name_text s.name ++ codes " " ++ entry ++ codes "\n") s.entries
        ++ load_file read s)

-- The sets that the first loop of `fw3_create_ipsets` does not pass over.
unfoldable pub is_created : (Ipset → Bool) → ℕ → Bool → Ipset → Bool
is_created exists family reload_set s =
    not
      (not (s.family == family) || is_some s.external || exists s && reload_set && not s.reload_set)

unfoldable pub create_ipsets :
    (InetAddr → CString)
    → (CString → Option (List CString))
    → (Ipset → Bool)
    → Bool
    → State
    → ℕ
    → Bool
    → List CString
unfolding is_created create_ipset
create_ipsets inet_ntop read exists pipe state family reload_set =
    let wanted = keep (is_created exists family reload_set) state.ipsets in
    if state.disable_ipsets then [] else elim wanted [
      | [] ↦ []
      | s ∷ rest ↦
          if pipe
          then concat_map (create_ipset inet_ntop read) (s ∷ rest) ++ codes "quit\n" ∷ []
          else []
    ]
