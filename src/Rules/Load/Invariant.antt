-- ===== src/Rules/Load/Invariant.antt =====
-- Loading rules keeps the zones' answer to the rules that are loaded already.
use firewall.Common.{
  ℕ, Bool, true, false, List, [], ◌∷◌, ◌++◌, Option, none, some, ◌≡◌, refl, sym, ap, subst, ◌∙◌,
  arith, All, Option-cases, inl, inr,
}
use firewall.Options.Family
use firewall.Options.Types.{Zone}
use firewall.Options.Types.Config.{Rule, State}
use firewall.Zones.Grows.{Extends}
use firewall.Rules.Check.{check_rule, resolve_zone, mark_zones, to_src_target}
use firewall.Rules.Load.{load_rule, load_sections, load_rules}
use firewall.Rules.Load.Served.{
  HasRawSource, check_rule-HasRawSource, Served, Named, Named-Extends, logs, check_rule-Checked,
  Extends-mark_zones, resolve_zone-Named, resolve_zone_null, resolve_zone_set, served_dest,
  served_src,
}

source_of :
    (zones : List Zone) (r : Rule) (s d : Option ℕ)
    → r.src_zone ≡ s
    → resolve_zone zones r.src ≡ some s
    → (i : ℕ) → r.src_zone ≡ some i
    → Named (mark_zones zones s d r.target) r.src i
source_of zones r s d es hs i e =
    Named-Extends zones (mark_zones zones s d r.target) r.src i
      (Extends-mark_zones zones s d r.target)
      (resolve_zone-Named zones r.src i (hs ∙ ap some (sym es ∙ e)))

Served-mark_zones :
    (zones : List Zone) (r : Rule) (s d : Option ℕ)
    → r.src_zone ≡ s
    → r.dest_zone ≡ d
    → resolve_zone zones r.src ≡ some s
    → resolve_zone zones r.dest ≡ some d
    → HasRawSource r
    → Served (mark_zones zones s d r.target) r
unfolding mark_zones
Served-mark_zones zones r s (some d) es ed hs hd raw = record {
  raw_source = raw;
  source = source_of zones r s (some d) es hs;
  source_set = λ i e. resolve_zone_set zones r.src i (hs ∙ ap some (sym es ∙ e));
  no_source = λ e. resolve_zone_null zones r.src (hs ∙ ap some (sym es ∙ e));
  dest = λ i e.
      let e' : d ≡ i = ground arith in
      rw e' (served_dest zones r i (resolve_zone-Named zones r.dest i (hd ∙ rw e')));
  dest_set = λ i e. resolve_zone_set zones r.dest d hd;
  no_dest = λ e. absurd (cc (e, ed));
  src = λ i e. absurd (cc (e, ed));
}
Served-mark_zones zones r none none es ed hs hd raw = record {
  raw_source = raw;
  source = source_of zones r none none es hs;
  source_set = λ i e. resolve_zone_set zones r.src i (hs ∙ ap some (sym es ∙ e));
  no_source = λ e. resolve_zone_null zones r.src (hs ∙ ap some (sym es ∙ e));
  dest = λ i e. absurd (cc (e, ed));
  dest_set = λ i e. absurd (cc (e, ed));
  no_dest = λ e. resolve_zone_null zones r.dest hd;
  src = λ i e e'. absurd (cc (e', es));
}
Served-mark_zones zones r (some s) none es ed hs hd raw = record {
  raw_source = raw;
  source = source_of zones r (some s) none es hs;
  source_set = λ i e. resolve_zone_set zones r.src i (hs ∙ ap some (sym es ∙ e));
  no_source = λ e. resolve_zone_null zones r.src (hs ∙ ap some (sym es ∙ e));
  dest = λ i e. absurd (cc (e, ed));
  dest_set = λ i e. absurd (cc (e, ed));
  no_dest = λ e. resolve_zone_null zones r.dest hd;
  src = λ i e e'.
      let same : s ≡ i = ground arith in
      rw same (served_src zones r i (resolve_zone-Named zones r.src i (hs ∙ rw same)));
}

pub Served-Extends :
    (zones zones' : List Zone) (r : Rule) → Extends zones zones' → Served zones r → Served zones' r
Served-Extends zones zones' r x h = record {
  source = λ i e. Named-Extends zones zones' r.src i x (h.source i e);
  raw_source = h.raw_source;
  source_set = h.source_set;
  no_source = h.no_source;
  dest = λ i e.
      let (z, at, called, on4, on6) = h.dest i e in
      let (z', at', g) = x i z at in
      (
        z',
        at',
        ap (λ (w : Zone). w.name) g.same ∙ called,
        g.bits Family.v4 r.target on4,
        g.bits Family.v6 r.target on6,
      );
  dest_set = h.dest_set;
  no_dest = h.no_dest;
  src = λ i e e'.
      let (z, at, called, on) = h.src i e e' in
      let (z', at', g) = x i z at in
      (
        z',
        at',
        ap (λ (w : Zone). w.name) g.same ∙ called,
        λ l.
            let (on4, on6) = on (ap (λ (w : Zone). logs w r.target) (sym g.same) ∙ l) in
            (
              g.bits Family.v4 (to_src_target r.target) on4,
              g.bits Family.v6 (to_src_target r.target) on6,
            ),
      );
}

-- A successful check: every zone is kept with its bits, and answers for the checked rule.
pub check_rule-Served :
    (state state' : State) (r r' : Rule)
    → check_rule state r ≡ some (state', r')
    → Served state'.zones r' × Extends state.zones state'.zones
check_rule-Served state state' r r' h =
    let (hs, hd, ez, er) = check_rule-Checked state state' r r' h in
    (
      rw ez (
          Served-mark_zones state.zones r' r'.src_zone r'.dest_zone refl refl hs hd
            (check_rule-HasRawSource state state' r r' h)),
      rw ez (Extends-mark_zones state.zones r'.src_zone r'.dest_zone r'.target),
    )

All-Served-Extends :
    (zones zones' : List Zone) (rs : List Rule)
    → Extends zones zones'
    → All (Served zones) rs
    → All (Served zones') rs
All-Served-Extends zones zones' [] x h = tt
All-Served-Extends zones zones' (r ∷ rs) x h =
    (Served-Extends zones zones' r x h.0, All-Served-Extends zones zones' rs x h.1)

pub All-append_one {ℓ κ} :
    {A : Type ℓ} (P : A → Type κ) (xs : List A) (x : A) → All P xs → P x → All P (xs ++ x ∷ [])
All-append_one P [] x h p = (p, tt)
All-append_one P (y ∷ xs) x h p = (h.0, All-append_one P xs x h.1 p)

-- The invariant of the loading of rules.
abbrev pub AllServed : State → Type 0
AllServed state = All (Served state.zones) state.rules

pub load_rule_refused :
    (state : State) (r : Rule) → check_rule state r ≡ none → load_rule state (true, r) ≡ state
unfolding load_rule
load_rule_refused state r h = ground arith

pub load_rule_accepted :
    (state state' : State) (r r' : Rule)
    → check_rule state r ≡ some (state', r')
    → load_rule state (true, r) ≡ record state' { rules = state'.rules ++ r' ∷ [] }
unfolding load_rule
load_rule_accepted state state' r r' h = ground arith

pub load_rule-AllServed :
    (state : State) (s : Bool × Rule) → AllServed state → AllServed (load_rule state s)
unfolding load_rule
load_rule-AllServed state (false, r) h = h
load_rule-AllServed state (true, r) h = elim (Option-cases (check_rule state r)) [
  | inl refused ↦ subst AllServed (sym (load_rule_refused state r refused)) h
  | inr ((state', r'), checked) ↦
      let (served, x) = check_rule-Served state state' r r' checked in
      let (hs, hd, ez, er) = check_rule-Checked state state' r r' checked in
      subst AllServed (sym (load_rule_accepted state state' r r' checked)) (
        rw er (
          All-append_one (Served state'.zones) state.rules r'
            (All-Served-Extends state.zones state'.zones state.rules x h) served))
]

load_sections-AllServed :
    (state : State) (sections : List (Bool × Rule))
    → AllServed state
    → AllServed (load_sections state sections)
unfolding load_sections
load_sections-AllServed state [] h = h
load_sections-AllServed state (s ∷ sections) h =
    load_sections-AllServed (load_rule state s) sections (load_rule-AllServed state s h)

-- Whatever sections are read: after `fw3_load_rules` the pointers of every loaded rule are NULL exactly
-- where its section names no zone, and otherwise point to zones of the names; a destination has the bit
-- of the target in both words, and the source of a rule that has no destination has there the bit of
-- `fw3_to_src_target`, if it logs and the target is above ACCEPT; a NOTRACK or HELPER rule has a source.
pub load_rules-AllServed :
    (state : State) (sections : List (Bool × Rule)) → AllServed (load_rules state sections)
unfolding load_rules
load_rules-AllServed state sections =
    load_sections-AllServed (record state { rules = [] }) sections tt
