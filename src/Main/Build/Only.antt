-- ===== src/Main/Build/Only.antt =====
-- Each loader keeps the lists that are loaded before it, and grows the zones.
use firewall.Common.{
  Bool, true, false, ◌&&◌, List, [], ◌∷◌, some, ◌≡◌, refl, ap, ◌∙◌, arith, Option-cases, Bool-cases,
  inl, inr,
}
use firewall.Options.Types.{Address, Zone}
use firewall.Options.Types.Config.{Forward, Include, Redirect, Rule, Snat, State}
use firewall.Zones.Grows.{Extends, Extends-refl, Extends-trans}
use firewall.Sections.{each_section_keeps}
use firewall.Rules.Check.{check_rule}
use firewall.Rules.Load.{load_rule, load_sections, load_rules}
use firewall.Rules.Load.Invariant.{check_rule-Served, load_rule_refused, load_rule_accepted}
use firewall.Redirects.{check_redirect, select_helper, load_redirect, load_redirects}
use firewall.Redirects.Kept.{finish_dnat-Done, finish_snat-Done}
use firewall.Redirects.Loaded.{
  load_redirect_refused, load_redirect_accepted, check_redirect-found, finish_redirect-cases,
  select_helper-cases,
}
use firewall.Snats.{check_snat, load_snat, load_snats}
use firewall.Snats.Checked.{load_snat_refused, load_snat_accepted, check_snat-Done}
use firewall.Forwards.Check.{check_forward, mark_dest, load_forward, load_forwards}
use firewall.Forwards.Check
use firewall.Forwards.Served.{load_forward_refused, load_forward_accepted, Extends-mark_dest}
use firewall.Includes.{load_include, load_includes}
use firewall.Includes

load_rule-Extends : (a : State) (s : Bool × Rule) → Extends a.zones (load_rule a s).zones
load_rule-Extends a (false, r) = unfold load_rule in Extends-refl a.zones
load_rule-Extends a (true, r) = elim (Option-cases (check_rule a r)) [
  | inl refused ↦ rw (load_rule_refused a r refused) (Extends-refl a.zones)
  | inr ((b, r'), checked) ↦
      rw (load_rule_accepted a b r r' checked) (check_rule-Served a b r r' checked).1
]

load_sections-Extends :
    (a : State) (sections : List (Bool × Rule)) → Extends a.zones (load_sections a sections).zones
unfolding load_sections
load_sections-Extends a [] = Extends-refl a.zones
load_sections-Extends a (s ∷ sections) =
    Extends-trans a.zones (load_rule a s).zones _ (load_rule-Extends a s)
      (load_sections-Extends (load_rule a s) sections)

pub load_rules-Extends :
    (a : State) (sections : List (Bool × Rule)) → Extends a.zones (load_rules a sections).zones
unfolding load_rules
load_rules-Extends a sections = load_sections-Extends (record a { rules = [] }) sections

-- The lists that are loaded before the redirects, before the source NAT sections, and so on.
abbrev pub SameRules : State → State → Type 0
SameRules a b = b.rules ≡ a.rules

abbrev pub SameRedirects : State → State → Type 0
SameRedirects a b = (b.rules ≡ a.rules) × (b.redirects ≡ a.redirects)

abbrev pub SameSnats : State → State → Type 0
SameSnats a b = (b.rules ≡ a.rules) × (b.redirects ≡ a.redirects) × (b.snats ≡ a.snats)

check_redirect-SameRules :
    (addrs : Zone → List Address) (a b : State) (r r' : Redirect)
    → check_redirect addrs a r ≡ some (b, r')
    → SameRules a b
check_redirect-SameRules addrs a b r r' h =
    let (s, d, m, c, es, ed, rest) = check_redirect-found addrs a r (b, r') h in
    elim (finish_redirect-cases addrs a _ (b, r') rest) [
      | inl (e, done) ↦
          let (given, eb, er) = finish_dnat-Done addrs a b _ r' done in
          ap (λ (w : State). w.rules) eb
      | inr (e, done) ↦
          let (given, eb, er) = finish_snat-Done a b _ r' done in ap (λ (w : State). w.rules) eb
    ]

select_helper-SameRules : (a : State) (r : Redirect) → SameRules a (select_helper a r).0
select_helper-SameRules a r = elim (select_helper-cases a r) [
  | inl same ↦ rw same refl
  | inr (m, wants, chosen) ↦ rw chosen refl
]

load_redirect-SameRules :
    (addrs : Zone → List Address) (o a : State) (s : Bool × Redirect)
    → SameRules o a
    → SameRules o (load_redirect addrs a s)
load_redirect-SameRules addrs o a (false, r) h = unfold load_redirect in h
load_redirect-SameRules addrs o a (true, r) h = elim (Option-cases (check_redirect addrs a r)) [
  | inl refused ↦ rw (load_redirect_refused addrs a r refused) h
  | inr ((b, r'), checked) ↦
      rw (load_redirect_accepted addrs a b r r' checked)
        (select_helper-SameRules b r' ∙ (check_redirect-SameRules addrs a b r r' checked ∙ h))
]

pub load_redirects-SameRules :
    (addrs : Zone → List Address) (a : State) (sections : List (Bool × Redirect))
    → SameRules a (load_redirects addrs a sections)
unfolding load_redirects
load_redirects-SameRules addrs a sections =
    each_section_keeps (SameRules a) (load_redirect addrs) (load_redirect-SameRules addrs a)
      (record a { redirects = [] }) sections refl

load_snat-SameRedirects :
    (o a : State) (s : Bool × Snat) → SameRedirects o a → SameRedirects o (load_snat a s)
load_snat-SameRedirects o a (false, s) h = unfold load_snat in h
load_snat-SameRedirects o a (true, s) h = elim (Option-cases (check_snat a s)) [
  | inl refused ↦ rw (load_snat_refused a s refused) h
  | inr ((b, s'), checked) ↦
      let (on, plain, options, (p, m, zone, e, e')) = check_snat-Done a b s s' checked in
      rw (load_snat_accepted a b s s' checked, e) h
]

pub load_snats-SameRedirects :
    (a : State) (sections : List (Bool × Snat)) → SameRedirects a (load_snats a sections)
unfolding load_snats
load_snats-SameRedirects a sections =
    each_section_keeps (SameRedirects a) load_snat (load_snat-SameRedirects a)
      (record a { snats = [] }) sections (refl, refl)

check_forward-only :
    (a b : State) (f f' : Forward)
    → check_forward a f ≡ some (b, f')
    → b ≡ record a { zones = mark_dest a.zones f'.dest_zone }
unfolding check_forward
check_forward-only a b f f' h = ground arith

-- What the loader of forwards keeps.
abbrev pub OnlyForwards : State → State → Type 0
OnlyForwards a b = Extends a.zones b.zones × SameSnats a b

load_forward-only :
    (o a : State) (s : Bool × Forward) → OnlyForwards o a → OnlyForwards o (load_forward a s)
load_forward-only o a (false, f) h = unfold load_forward in h
load_forward-only o a (true, f) h = elim (Option-cases (check_forward a f)) [
  | inl refused ↦ rw (load_forward_refused a f refused) h
  | inr ((b, f'), checked) ↦
      rw (load_forward_accepted a b f f' checked, check_forward-only a b f f' checked)
        (Extends-trans o.zones a.zones _ h.0 (Extends-mark_dest a.zones f'.dest_zone), h.1)
]

load_sections-only :
    (o a : State) (sections : List (Bool × Forward))
    → OnlyForwards o a
    → OnlyForwards o (Check.load_sections a sections)
unfolding Check.load_sections
load_sections-only o a [] h = h
load_sections-only o a (s ∷ sections) h =
    load_sections-only o (load_forward a s) sections (load_forward-only o a s h)

pub load_forwards-only :
    (a : State) (sections : List (Bool × Forward)) → OnlyForwards a (load_forwards a sections)
unfolding load_forwards
load_forwards-only a sections =
    load_sections-only a (record a { forwards = [] }) sections
      (Extends-refl a.zones, (refl, refl, refl))

-- The loader of includes changes its own list alone.
abbrev OnlyIncludes : State → State → Type 0
OnlyIncludes a b = record b { includes = [] } ≡ record a { includes = [] }

load_include-only :
    (o a : State) (s : Bool × Include) → OnlyIncludes o a → OnlyIncludes o (load_include a s)
unfolding load_include
load_include-only o a (valid, i) h = elim (Bool-cases (valid && Includes.check_include i)) [
  | inl on ↦ rw on h
  | inr off ↦ rw off h
]

pub load_includes-only :
    (a : State) (sections : List (Bool × Include))
    → record (load_includes a sections) { includes = [] } ≡ record a { includes = [] }
unfolding load_includes
load_includes-only a sections =
    each_section_keeps (OnlyIncludes a) load_include (load_include-only a)
      (record a { includes = [] }) sections refl
