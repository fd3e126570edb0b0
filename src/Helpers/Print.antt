-- ===== src/Helpers/Print.antt =====
-- `fw3_print_cthelpers`: the rules that attach helpers to a zone. `loaded` answers for `test_module`,
-- which looks for the helper's module below /sys.
use firewall.Common.{
  Bool, false, not, ◌&&◌, ◌||◌, List, [], ◌∷◌, ◌++◌, none, some, ◌==◌, null, get_elem?, concat_map,
  map, if◌then◌else◌, keep,
}
use firewall.Common.CString.{CString, codes}
use firewall.Options.Table
use firewall.Options.Types.{CtHelperMatch, Protocol, Zone}
use firewall.Options.Types.Config.{CtHelper, State}
use firewall.Utils.Flags.{is_family}
use firewall.Iptables.{
  Handle, IptCall, Trace, create, comment, sport_dport, target, addarg, replace,
}

-- The description, or the name if there is none.
abbrev caption : CtHelper → CString
caption h = elim h.description [ none ↦ h.name | some [] ↦ h.name | some (c ∷ s) ↦ c ∷ s ]

unfoldable pub print_helper_rule : CtHelper → Zone → Protocol → IptCall
print_helper_rule helper zone proto =
    replace
      (create (some proto) none none none none
        ∷ comment (caption helper)
        ∷ sport_dport none (some helper.port)
        ∷ target (codes "CT")
        ∷ addarg false (codes "--helper") (some helper.name)
        ∷ [])
      (codes "zone_" ++ zone.name ++ codes "_helper")

unfoldable pub expand_helper_rule : Zone → CtHelper → Trace
unfolding print_helper_rule
expand_helper_rule zone helper = map (print_helper_rule helper zone) helper.proto

-- The tests that both loops make.
unfoldable pub is_attached : Handle → (CtHelper → Bool) → CtHelper → Bool
is_attached h loaded helper = helper.enabled && is_family helper.family h.family && loaded helper

-- The helpers that the zone's options point to; a pointer that is NULL is passed over.
unfoldable pub pointed : List CtHelper → List CtHelperMatch → List CtHelper
pointed helpers [] = []
pointed helpers (m ∷ ms) = elim m.ptr [
  | none ↦ pointed helpers ms
  | some i ↦ elim (get_elem? helpers i) [
    | none ↦ pointed helpers ms
    | some h ↦ h ∷ pointed helpers ms
  ]
]

unfoldable pub print_cthelpers : Handle → (CtHelper → Bool) → State → Zone → Trace
unfolding expand_helper_rule is_attached pointed
print_cthelpers h loaded state zone =
    if not (h.table == Table.raw) || not (is_family zone.family h.family)
    then []
    else if null zone.cthelpers
    then (if zone.masq || not zone.auto_helper
        then []
        else concat_map (expand_helper_rule zone) (keep (is_attached h loaded) state.cthelpers))
    else concat_map (expand_helper_rule zone)
        (keep (is_attached h loaded) (pointed state.cthelpers zone.cthelpers))
