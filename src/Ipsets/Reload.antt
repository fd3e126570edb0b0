-- ===== src/Ipsets/Reload.antt =====
-- `fw3_ipsets_update_run_state` and `fw3_destroy_ipsets`: which sets a reload destroys.
use firewall.Common.{
  ℕ, Bool, true, false, not, ◌&&◌, ◌||◌, List, [], ◌∷◌, ◌++◌, map, Option, none, some, ◌==◌, ◌≡◌,
  refl, sym, ◌∙◌, arith, keep, get_elem?, ◌<◌, ◌↔◌, zero, suc, if◌then◌else◌, concat_map,
  Bool-cases, inl, inr,
}
use firewall.Common.CString.{CString, codes, streq}
use firewall.Options.Types.Config.{Ipset, State}

-- `strlen(a) == strlen(b) && !strcmp(a, b)`; a set that `check_ipset` accepts has a name.
abbrev pub same_name : Ipset → Ipset → Bool
same_name a b = elim a.name [
  | none ↦ false
  | some m ↦ elim b.name [ none ↦ false | some n ↦ streq m n ]
]

-- The inner loop: the first set of the configuration with the family and the name.
unfoldable pub find_cfg : ℕ → Ipset → List Ipset → Option Ipset
find_cfg family run [] = none
find_cfg family run (cfg ∷ sets) = elim (cfg.family == family && same_name run cfg) [
  | true ↦ some cfg
  | false ↦ find_cfg family run sets
]

unfoldable pub update_ipset : ℕ → List Ipset → Ipset → Ipset
update_ipset family cfgs run = if not (run.family == family) then run else record run {
  reload_set = elim (find_cfg family run cfgs) [ none ↦ true | some cfg ↦ cfg.reload_set ];
}

-- `fw3_ipsets_update_run_state`, as the run state that it leaves.
unfoldable pub update_run_state : ℕ → State → State → State
unfolding update_ipset
update_run_state family run_state cfg_state = record run_state {
  ipsets = map (update_ipset family cfg_state.ipsets) run_state.ipsets;
}

-- `info` apart, what the program writes to the ipset command for one set.
abbrev text : Option CString → CString
text none = codes "(null)"
text (some s) = s

unfoldable pub destroy_ipset : Ipset → List CString
destroy_ipset s =
    (codes "flush " ++ text s.name ++ codes "\n")
    ∷ (codes "destroy " ++ text s.name ++ codes "\n")
    ∷ []

-- The sets that the first loop of `fw3_destroy_ipsets` does not pass over.
unfoldable pub is_destroyed : ℕ → Bool → Ipset → Bool
is_destroyed family reload_set s = not (not (s.family == family) || reload_set && not s.reload_set)

-- The lines that `fw3_destroy_ipsets` writes; `pipe` tells whether the command could be started.
unfoldable pub destroy_ipsets : Bool → State → ℕ → Bool → List CString
unfolding destroy_ipset
destroy_ipsets pipe state family reload_set =
    let doomed = keep (is_destroyed family reload_set) state.ipsets in
    if state.disable_ipsets then [] else elim doomed [
      | [] ↦ []
      | s ∷ rest ↦ if pipe then concat_map destroy_ipset (s ∷ rest) ++ codes "quit\n" ∷ [] else []
    ]

-- The sets of the configuration that stand for a set of the run state.
abbrev pub matches : ℕ → Ipset → Ipset → Bool
matches family run cfg = cfg.family == family && same_name run cfg

-- The first set of a list that passes the test of the inner loop, and its flag.
abbrev pub KeptBy : ℕ → Ipset → List Ipset → Type 0
KeptBy family run cfgs =
    (k : ℕ) × (cfg : Ipset) × (get_elem? cfgs k ≡ some cfg)
    × (matches family run cfg ≡ true)
    × (cfg.reload_set ≡ false)
    × ((j : ℕ) (other : Ipset)
        → j < k
        → get_elem? cfgs j ≡ some other
        → matches family run other ≡ false)

earlier :
    (family : ℕ) (run cfg : Ipset) (cfgs : List Ipset) (k : ℕ)
    → matches family run cfg ≡ false
    → ((j : ℕ) (other : Ipset)
        → j < k
        → get_elem? cfgs j ≡ some other
        → matches family run other ≡ false)
    → (j : ℕ) (other : Ipset) → j < suc k
    → get_elem? (cfg ∷ cfgs) j ≡ some other
    → matches family run other ≡ false
earlier family run cfg cfgs k miss first zero other lt at = ground arith
earlier family run cfg cfgs k miss first (suc j) other lt at = first j other (omega arith) at

kept_by :
    (family : ℕ) (run : Ipset) (cfgs : List Ipset)
    → (elim (find_cfg family run cfgs) [ none ↦ true | some cfg ↦ cfg.reload_set ]) ≡ false
    → KeptBy family run cfgs
unfolding find_cfg
kept_by family run [] h = cc
kept_by family run (cfg ∷ cfgs) h = elim (Bool-cases (matches family run cfg)) [
  | inl hit ↦ (0, cfg, refl, hit, ground arith, λ j other lt at. absurd (omega arith))
  | inr miss ↦
      let (k, cfg', at, hit, keeps, first) = kept_by family run cfgs (ground arith) in
      (suc k, cfg', at, hit, keeps, earlier family run cfg cfgs k miss first)
]

find_cfg_hit :
    (family : ℕ) (run c : Ipset) (cfgs : List Ipset)
    → matches family run c ≡ true
    → find_cfg family run (c ∷ cfgs) ≡ some c
unfolding find_cfg
find_cfg_hit family run c cfgs hit = ground arith

find_cfg_miss :
    (family : ℕ) (run c : Ipset) (cfgs : List Ipset)
    → matches family run c ≡ false
    → find_cfg family run (c ∷ cfgs) ≡ find_cfg family run cfgs
unfolding find_cfg
find_cfg_miss family run c cfgs miss = ground arith

found_first :
    (family : ℕ) (run : Ipset) (cfgs : List Ipset) (k : ℕ) (cfg : Ipset)
    → get_elem? cfgs k ≡ some cfg
    → matches family run cfg ≡ true
    → ((j : ℕ) (other : Ipset)
        → j < k
        → get_elem? cfgs j ≡ some other
        → matches family run other ≡ false)
    → find_cfg family run cfgs ≡ some cfg
found_first family run [] k cfg at hit first = cc
found_first family run (c ∷ cfgs) zero cfg at hit first =
    let e : c ≡ cfg = ground arith in rw e (find_cfg_hit family run cfg cfgs hit)
found_first family run (c ∷ cfgs) (suc k) cfg at hit first =
    let miss : matches family run c ≡ false = first 0 c (omega arith) refl in
    find_cfg_miss family run c cfgs miss
    ∙ found_first family run cfgs k cfg at hit (λ j other lt. first (suc j) other (omega arith))

destroyed_iff :
    (family : ℕ) (run : Ipset) (cfgs : List Ipset)
    → run.family ≡ family
    → is_destroyed family true (update_ipset family cfgs run)
      ≡ (elim (find_cfg family run cfgs) [ none ↦ true | some cfg ↦ cfg.reload_set ])
unfolding update_ipset is_destroyed
destroyed_iff family run cfgs e = ground arith

-- A set of the run state of the family, after `fw3_ipsets_update_run_state`: a reload leaves it in
-- place exactly when the configuration has a set of the family with its name, and the first such set
-- does not ask to be reloaded.
pub update_ipset-kept_iff :
    (family : ℕ) (run : Ipset) (cfgs : List Ipset)
    → run.family ≡ family
    → (is_destroyed family true (update_ipset family cfgs run) ≡ false) ↔ KeptBy family run cfgs
update_ipset-kept_iff family run cfgs e = (
  λ h. kept_by family run cfgs (sym (destroyed_iff family run cfgs e) ∙ h),
  λ (k, cfg, at, hit, keeps, first).
      destroyed_iff family run cfgs e ∙ rw (found_first family run cfgs k cfg at hit first) keeps,
)
