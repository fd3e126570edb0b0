-- ===== src/Helpers/Load.antt =====
-- `fw3_load_cthelpers`, and what holds of the helpers that it keeps and that the look-up finds.
use firewall.Common.{
  null, ◌==◌, ℕ, suc, ◌≤◌, true, false, ◌&&◌, List, [], ◌∷◌, ◌++◌, Option, none, some, ◌≡◌, ◌⊎◌,
  refl, arith, get_elem?, All, Bool-cases, inl, inr, if◌then◌else◌,
}
use firewall.Common.CString.{CString}
use firewall.Options.Types.{Port, Protocol}
use firewall.Options.Types.Config.{CtHelper, State}
use firewall.Helpers.{
  all_plain, given, check_cthelper_proto, check_proto, check_cthelper, port_matches, find_by_port,
  lookup_cthelper_by_proto_port,
}

-- The loop of `load_cthelpers`: a section is checked even when its options are invalid.
unfoldable pub load_cthelpers : List CtHelper → List CtHelper → List CtHelper
load_cthelpers helpers [] = helpers
load_cthelpers helpers (h ∷ sections) =
    load_cthelpers (if check_cthelper h then helpers ++ h ∷ [] else helpers) sections

-- `fw3_load_cthelpers`: the sections of FW3_HELPERCONF, if it can be imported, then those of the
-- configuration.
unfoldable pub load_all : Option (List CtHelper) → List CtHelper → State → State
load_all none sections state = record state { cthelpers = load_cthelpers [] sections }
load_all (some shipped) sections state = record state {
  cthelpers = load_cthelpers (load_cthelpers [] shipped) sections;
}

-- A protocol that is given by its number, without a negation.
abbrev pub IsPlain : Protocol → Type 0
IsPlain p = ((p.protocol == 0) ≡ false) × (p.any ≡ false) × (p.invert ≡ false)

-- A helper has a name, a module and plain protocols, of which there is one at least; a port that is given
-- is not negated.
pub record IsChecked (h : CtHelper) : Type 0 where
  pub named : null h.name ≡ false
  pub module_named : (m : CString) × (h.module_name ≡ some m) × (null m ≡ false)
  pub proto : null h.proto ≡ false
  pub plain : All IsPlain h.proto
  pub port : (h.port.set && h.port.invert) ≡ false

all_plain-IsPlain : (ps : List Protocol) → all_plain ps ≡ true → All IsPlain ps
unfolding all_plain
all_plain-IsPlain [] h = tt
all_plain-IsPlain (p ∷ ps) h = ground (arith, all_plain-IsPlain ps)

given-some : (m : Option CString) → given m ≡ true → (s : CString) × (m ≡ some s) × (null s ≡ false)
given-some none h = absurd (ground arith)
given-some (some s) h = (s, refl, ground arith)

check_cthelper-IsChecked : (h : CtHelper) → check_cthelper h ≡ true → IsChecked h
unfolding check_cthelper check_cthelper_proto
check_cthelper-IsChecked h good = record {
  named = ground arith;
  module_named = given-some h.module_name (ground arith);
  proto = ground arith;
  plain = all_plain-IsPlain h.proto (ground arith);
  port = ground arith;
}

All-snoc :
    (helpers : List CtHelper) (h : CtHelper)
    → All IsChecked helpers
    → IsChecked h
    → All IsChecked (helpers ++ h ∷ [])
All-snoc [] h hs p = (p, tt)
All-snoc (x ∷ helpers) h hs p = (hs.0, All-snoc helpers h hs.1 p)

load_cthelpers-IsChecked :
    (helpers sections : List CtHelper)
    → All IsChecked helpers
    → All IsChecked (load_cthelpers helpers sections)
unfolding load_cthelpers
load_cthelpers-IsChecked helpers [] hs = hs
load_cthelpers-IsChecked helpers (h ∷ sections) hs = elim (Bool-cases (check_cthelper h)) [
  | inl good ↦ rw good (
      load_cthelpers-IsChecked (helpers ++ h ∷ []) sections
        (All-snoc helpers h hs (check_cthelper-IsChecked h good)))
  | inr bad ↦ rw bad (load_cthelpers-IsChecked helpers sections hs)
]

-- Whatever the two files hold: each helper that is loaded has a name, a module and at least one protocol;
-- its protocols are given by numbers other than 0, with no `any` and no negation, and its port, if it has
-- one, is not negated.
pub load_all-IsChecked :
    (shipped : Option (List CtHelper)) (sections : List CtHelper) (state : State)
    → All IsChecked (load_all shipped sections state).cthelpers
unfolding load_all
load_all-IsChecked none sections state = load_cthelpers-IsChecked [] sections tt
load_all-IsChecked (some shipped) sections state =
    load_cthelpers-IsChecked (load_cthelpers [] shipped) sections
      (load_cthelpers-IsChecked [] shipped tt)

-- The ports of a query lie within those of a helper, or neither gives a port.
abbrev pub Covers : Port → Option Port → Type 0
Covers own none = own.set ≡ false
Covers own (some port) =
    ((own.set ≡ false) × (port.set ≡ false))
    ⊎ ((own.set ≡ true)
        × (port.set ≡ true)
        × (own.port_min ≤ port.port_min)
        × (port.port_max ≤ own.port_max))

port_matches-Covers :
    (own : Port) (port : Option Port) → port_matches own port ≡ true → Covers own port
unfolding port_matches
port_matches-Covers own none h = ground arith
port_matches-Covers own (some port) h = ground arith

-- What the look-up answers with.
abbrev pub IsFound : List CtHelper → Protocol → Option Port → CtHelper → Type 0
IsFound helpers proto port h =
    ((n : ℕ) × (get_elem? helpers n ≡ some h))
    × (h.enabled ≡ true)
    × (check_proto h.proto proto ≡ true)
    × Covers h.port port

find_by_port-IsFound :
    (helpers : List CtHelper) (proto : Protocol) (port : Option Port) (h : CtHelper)
    → find_by_port helpers proto port ≡ some h
    → IsFound helpers proto port h
unfolding find_by_port
find_by_port-IsFound [] proto port h e = cc
find_by_port-IsFound (x ∷ helpers) proto port h e =
    elim (Bool-cases (x.enabled && check_proto x.proto proto && port_matches x.port port)) [
      | inl hit ↦
          let same : x ≡ h = ground arith in
          let fits : port_matches x.port port ≡ true = ground arith in
          rw (← same) ((0, refl), ground arith, ground arith, port_matches-Covers x.port port fits)
      | inr miss ↦
          let ((n, at), enabled, has_proto, covers) =
            find_by_port-IsFound helpers proto port h (ground arith) in
          ((suc n, at), enabled, has_proto, covers)
    ]

-- A helper that `fw3_lookup_cthelper_by_proto_port` finds is in the list, is enabled and serves the
-- protocol; its ports take in those asked for, or neither side gives a port.
pub lookup_cthelper_by_proto_port-IsFound :
    (helpers : List CtHelper) (proto : Protocol) (port : Option Port) (h : CtHelper)
    → lookup_cthelper_by_proto_port helpers (some proto) port ≡ some h
    → IsFound helpers proto port h
unfolding lookup_cthelper_by_proto_port
lookup_cthelper_by_proto_port-IsFound helpers proto port h e =
    find_by_port-IsFound helpers proto port h (ground arith)
