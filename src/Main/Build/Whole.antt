-- ===== src/Main/Build/Whole.antt =====
-- What holds of the state that `build_state` makes, of all components together.
use firewall.Common.{
  ℕ, Bool, List, [], Option, none, some, ◌≡◌, refl, sym, ◌∙◌, subst, All, get_elem?, All-get_elem?,
}
use firewall.Options.Types.{Address, Zone}
use firewall.Options.Types.Config.{CtHelper, Ipset, Redirect, Rule, Snat, State}
use firewall.Ubus.{Interface}
use firewall.Zones.Grows.{Grows, Extends, Extends-trans}
use firewall.Zones.Load.Loaded.{IsLoaded, IsSection, HasPolicy, load_zones-IsLoaded}
use firewall.Zones.Rules.Exists.{IsLoaded-Grows}
use firewall.Sections.{All-Extends}
use firewall.Defaults.Check.{load_defaults}
use firewall.Helpers.Load.{load_all}
use firewall.Ipsets.Check.{load_ipsets}
use firewall.Rules.Load.{load_rules}
use firewall.Rules.Load.Served as RuleServed
use firewall.Rules.Load.Invariant.{Served-Extends, load_rules-AllServed}
use firewall.Redirects.{load_redirects}
use firewall.Redirects.Served as RedirectServed
use firewall.Redirects.Loaded.{load_redirects-Served}
use firewall.Snats.{load_snats}
use firewall.Snats.Checked.{IsChecked, IsChecked-Extends, load_snats-IsChecked}
use firewall.Forwards.Check.{load_forwards}
use firewall.Forwards.Served.{load_forwards-AllServed}
use firewall.Forwards.Served as ForwardServed
use firewall.Main.Build.{Package, load_base, build_state}
use firewall.Main.Build.Only.{
  load_rules-Extends, load_redirects-SameRules, load_snats-SameRedirects, load_forwards-only,
  load_includes-only,
}

-- Each zone that `fw3_load_zones` made is still there, perhaps with more bits, and is loaded; what the
-- loaders of rules, redirects, source NATs and forwards guarantee of their sections holds of these zones.
pub record IsBuilt (loaded : List Zone) (s : State) : Type 0 where
  pub zones :
      (i : ℕ) (y : Zone)
      → get_elem? loaded i ≡ some y
      → (z : Zone) × (get_elem? s.zones i ≡ some z) × Grows y z × IsLoaded z
  pub rules : All (RuleServed.Served s.zones) s.rules
  pub redirects : All (RedirectServed.Served s.zones) s.redirects
  pub snats : All (IsChecked s.zones) s.snats
  pub forwards : All (ForwardServed.Served s.zones) s.forwards

abbrev redirects_of : State → List Redirect
redirects_of state = state.redirects

abbrev snats_of : State → List Snat
snats_of state = state.snats

abbrev rules_of : State → List Rule
rules_of state = state.rules

-- Behind the zones: the lists are loaded one after another, over zones that only grow.
module _ (addrs : Zone → List Address) (p : Package) (base : State) where
  abbrev ruled : State
  ruled = load_rules base p.rules

  abbrev redirected : State
  redirected = load_redirects addrs ruled p.redirects

  abbrev translated : State
  translated = load_snats redirected p.snats

  abbrev forwarded : State
  forwarded = load_forwards translated p.forwards

  grown_rules : Extends ruled.zones forwarded.zones
  grown_rules =
      Extends-trans ruled.zones redirected.zones forwarded.zones
        (load_redirects-Served addrs ruled p.redirects).0
        (Extends-trans redirected.zones translated.zones forwarded.zones
          (load_snats-IsChecked redirected p.snats).0 (load_forwards-only translated p.forwards).0)

  grown_redirects : Extends redirected.zones forwarded.zones
  grown_redirects =
      Extends-trans redirected.zones translated.zones forwarded.zones
        (load_snats-IsChecked redirected p.snats).0 (load_forwards-only translated p.forwards).0

  built_zones :
      ((z : Zone) (i : ℕ) → get_elem? base.zones i ≡ some z → IsLoaded z)
      → (i : ℕ) (y : Zone) → get_elem? base.zones i ≡ some y
      → (z : Zone) × (get_elem? forwarded.zones i ≡ some z) × Grows y z × IsLoaded z
  built_zones loaded i y at =
      let x =
        Extends-trans base.zones ruled.zones forwarded.zones (load_rules-Extends base p.rules)
          grown_rules in
      let (z, at', g) = x i y at in (z, at', g, IsLoaded-Grows y z g (loaded y i at))

  built_rules : All (RuleServed.Served forwarded.zones) forwarded.rules
  built_rules =
      let (kept, rest, more) = (load_forwards-only translated p.forwards).1 in
      let before = (load_snats-SameRedirects redirected p.snats).0 in
      let first = load_redirects-SameRules addrs ruled p.redirects in
      subst (λ (rs : List Rule). All (RuleServed.Served forwarded.zones) rs)
        (sym (kept ∙ (before ∙ first)))
        (All-Extends rules_of RuleServed.Served Served-Extends ruled.zones forwarded.zones
          ruled.rules grown_rules (load_rules-AllServed base p.rules))

  built_redirects : All (RedirectServed.Served forwarded.zones) forwarded.redirects
  built_redirects =
      let (rules, kept, more) = (load_forwards-only translated p.forwards).1 in
      let before = (load_snats-SameRedirects redirected p.snats).1 in
      subst (λ (rs : List Redirect). All (RedirectServed.Served forwarded.zones) rs)
        (sym (kept ∙ before))
        (All-Extends redirects_of RedirectServed.Served RedirectServed.Served-Extends
          redirected.zones forwarded.zones redirected.redirects grown_redirects
          (load_redirects-Served addrs ruled p.redirects).1)

  built_snats : All (IsChecked forwarded.zones) forwarded.snats
  built_snats =
      let (rules, redirects, kept) = (load_forwards-only translated p.forwards).1 in
      subst (λ (ss : List Snat). All (IsChecked forwarded.zones) ss) (sym kept)
        (All-Extends snats_of IsChecked IsChecked-Extends translated.zones forwarded.zones
          translated.snats (load_forwards-only translated p.forwards).0
          (load_snats-IsChecked redirected p.snats).1)

  built :
      ((z : Zone) (i : ℕ) → get_elem? base.zones i ≡ some z → IsLoaded z)
      → IsBuilt base.zones forwarded
  built loaded = record {
    zones = built_zones loaded;
    rules = built_rules;
    redirects = built_redirects;
    snats = built_snats;
    forwards = load_forwards-AllServed translated p.forwards;
  }

IsBuilt-includes :
    (loaded : List Zone) (a b : State)
    → record b { includes = [] } ≡ record a { includes = [] }
    → IsBuilt loaded a
    → IsBuilt loaded b
IsBuilt-includes loaded a b e h =
    let bare : IsBuilt loaded (record a { includes = [] }) = record {
      zones = h.zones;
      rules = h.rules;
      redirects = h.redirects;
      snats = h.snats;
      forwards = h.forwards;
    } in
    let moved : IsBuilt loaded (record b { includes = [] }) = subst (IsBuilt loaded) (sym e) bare in
    record {
      zones = moved.zones;
      rules = moved.rules;
      redirects = moved.redirects;
      snats = moved.snats;
      forwards = moved.forwards;
    }

load_all_defaults :
    (shipped : Option (List CtHelper)) (helpers : List CtHelper) (s : State)
    → (load_all shipped helpers s).defaults ≡ s.defaults
unfolding load_all
load_all_defaults none helpers s = refl
load_all_defaults (some hs) helpers s = refl

load_ipsets_defaults :
    (s : State) (sections : List (Bool × Ipset)) → (load_ipsets s sections).defaults ≡ s.defaults
unfolding load_ipsets
load_ipsets_defaults s sections = refl

load_base-IsLoaded :
    (offload : Bool) (interfaces : List Interface) (p : Package) (s : State)
    → HasPolicy (load_defaults offload p.defaults s.defaults)
    → All IsSection p.zones
    → All IsLoaded (load_base offload interfaces p s).zones
unfolding load_base
load_base-IsLoaded offload interfaces p s d h =
    let defaulted : State = record s { defaults = load_defaults offload p.defaults s.defaults } in
    let helped : State = load_all p.shipped_helpers p.cthelpers defaulted in
    let ready : State = load_ipsets helped p.ipsets in
    let same : ready.defaults ≡ load_defaults offload p.defaults s.defaults =
      load_ipsets_defaults helped p.ipsets
      ∙ load_all_defaults p.shipped_helpers p.cthelpers defaulted in
    load_zones-IsLoaded interfaces ready p.zones (subst HasPolicy (sym same) d) h

-- Where the defaults have checked policies and the zone sections have policies that are unset or from the
-- parser's table, whatever else the configuration, the message bus and the network hold: in the state
-- that `build_state` makes, each zone that `fw3_load_zones` made is in its place, loaded, with at least its
-- bits. Of these zones: the pointers of each rule name its zones, a destination has the bit of the rule's
-- target, and the source of a rule that has no destination has the bit of `fw3_to_src_target`, if it logs
-- and the target is above ACCEPT; the zones of each redirect have the bits of the chains that
-- `load_redirects-Served` lists; the zone of each source NAT section has the bit of its postrouting chain;
-- the pointers of each forward name its zones, and its destination has the ACCEPT bit. Nothing is said of
-- the chains of NOTRACK and HELPER rules, nor of reflection zones that a redirect names.
pub build_state-IsBuilt :
    (offload : Bool) (interfaces : List Interface) (addrs : Zone → List Address) (p : Package)
    (s : State)
    → HasPolicy (load_defaults offload p.defaults s.defaults)
    → All IsSection p.zones
    → IsBuilt (load_base offload interfaces p s).zones (build_state offload interfaces addrs p s)
unfolding build_state
build_state-IsBuilt offload interfaces addrs p s d h =
    let base : State = load_base offload interfaces p s in
    IsBuilt-includes base.zones (forwarded addrs p base) _
      (load_includes-only (forwarded addrs p base) p.includes)
      (built addrs p base (λ z i at.
        All-get_elem? IsLoaded base.zones i z (load_base-IsLoaded offload interfaces p s d h) at))
