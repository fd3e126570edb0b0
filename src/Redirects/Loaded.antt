-- ===== src/Redirects/Loaded.antt =====
-- After `fw3_load_redirects` the zones owe nothing to a redirect.
use firewall.Common.{
  ℕ, Bool, true, false, not, ◌&&◌, List, [], ◌∷◌, ◌++◌, Option, none, some, ◌≡◌, ◌⊎◌, refl, arith,
  ◌==◌, is_some, Option-cases, Bool-cases, inl, inr, All, if◌then◌else◌,
}
use firewall.Options.Flag
use firewall.Options.Types.{Address, SetMatch, CtHelperMatch, Zone}
use firewall.Options.Types.Config.{Redirect, State}
use firewall.Zones.Lookup.{set_v4}
use firewall.Zones.Grows.{Extends, Extends-trans, Grows-set_v4}
use firewall.Rules.Check.{resolve_zone, resolve_ipset, resolve_cthelper}
use firewall.Sections.{Adds, each_section-Owes}
use firewall.Redirects.{
  default_target, or_tcpudp, modify_at, finish_dnat, finish_snat, finish_redirect, check_redirect,
  select_helper, add_redirect, load_redirect, load_redirects, match_helpers, wants_helper,
  check_families,
}
use firewall.Redirects.Served.{
  Served, Served-Extends, Extends-modify_at, HasBit-modify_at, has-set_v4,
}
use firewall.Redirects.Kept.{Kept, resolve_zone-Called, finish_dnat-Kept, finish_snat-Kept}

-- A section with its pointers.
abbrev found : Redirect → Option ℕ → Option ℕ → SetMatch → CtHelperMatch → Redirect
found r s d m h = record r { src_zone = s; dest_zone = d; ipset = m; helper = h }

pub check_redirect-found :
    (addrs : Zone → List Address) (state : State) (r : Redirect) (x : State × Redirect)
    → check_redirect addrs state r ≡ some x
    → (s : Option ℕ) × (d : Option ℕ) × (m : SetMatch) × (h : CtHelperMatch) × (resolve_zone
          state.zones r.src
        ≡ some s)
      × (resolve_zone state.zones r.dest ≡ some d)
      × (finish_redirect addrs state (found r s d m h) ≡ some x)
unfolding check_redirect
check_redirect-found addrs state r x e = elim (Option-cases (resolve_zone state.zones r.src)) [
  | inl missing ↦ absurd (ground arith)
  | inr (s, es) ↦ elim (Option-cases (resolve_zone state.zones r.dest)) [
    | inl missing ↦ absurd (ground arith)
    | inr (d, ed) ↦ elim (Option-cases (resolve_ipset state r.ipset)) [
      | inl missing ↦ absurd (ground arith)
      | inr (m, em) ↦ elim (Option-cases (resolve_cthelper state r.helper)) [
        | inl missing ↦ absurd (ground arith)
        | inr (h, eh) ↦ (s, d, m, h, es, ed, ground arith)
      ]
    ]
  ]
]

abbrev filled : Redirect → Redirect
filled r = record r { target = default_target r.target; proto = or_tcpudp r.proto }

default_target-cases : (t : ℕ) → (default_target t ≡ Flag.dnat) ⊎ (default_target t ≡ Flag.snat)
unfolding default_target
default_target-cases t = ground arith

-- The two branches of `finish_redirect`, on what the tests find.
branch :
    (families : Bool) (t : ℕ) (a b : Option (State × Redirect)) (x : State × Redirect)
    → (if not families then none else if t == Flag.dnat then a else b) ≡ some x
    → (t ≡ Flag.dnat) ⊎ (t ≡ Flag.snat)
    → ((t ≡ Flag.dnat) × (a ≡ some x)) ⊎ ((t ≡ Flag.snat) × (b ≡ some x))
branch false t a b x h e = cc
branch true t a b x h (inl e) = inl (e, ground arith)
branch true t a b x h (inr e) = inr (e, ground arith)

pub finish_redirect-cases :
    (addrs : Zone → List Address) (state : State) (r : Redirect) (x : State × Redirect)
    → finish_redirect addrs state r ≡ some x
    → ((default_target r.target ≡ Flag.dnat) × (finish_dnat addrs state (filled r) ≡ some x))
      ⊎ ((default_target r.target ≡ Flag.snat) × (finish_snat state (filled r) ≡ some x))
unfolding finish_redirect
finish_redirect-cases addrs state r x h =
    branch (check_families state r) (default_target r.target) (finish_dnat addrs state (filled r))
      (finish_snat state (filled r)) x h (default_target-cases r.target)

check_redirect-Kept :
    (addrs : Zone → List Address) (state state' : State) (r r' : Redirect)
    → check_redirect addrs state r ≡ some (state', r')
    → Kept state state' r'
check_redirect-Kept addrs state state' r r' e =
    let (s, d, m, h, es, ed, rest) = check_redirect-found addrs state r (state', r') e in
    let src = resolve_zone-Called state.zones r.src s es in
    let dest = resolve_zone-Called state.zones r.dest d ed in
    let whole : Redirect = filled (found r s d m h) in
    elim (finish_redirect-cases addrs state (found r s d m h) (state', r') rest) [
      | inl (t, done) ↦ finish_dnat-Kept addrs state state' whole r' done t src dest
      | inr (t, done) ↦ finish_snat-Kept state state' whole r' done t src dest
    ]

-- A redirect whose helper is chosen: the source has the bit of its helper chain.
choose_helper-Served :
    (zones : List Zone) (r : Redirect) (m : CtHelperMatch)
    → is_some r.src_zone ≡ true
    → Served zones r
    → Served (modify_at r.src_zone (set_v4 Flag.helper) zones) (record r { helper = m })
choose_helper-Served zones r m given h =
    let zones' = modify_at r.src_zone (set_v4 Flag.helper) zones in
    let x = Extends-modify_at r.src_zone (set_v4 Flag.helper) zones (Grows-set_v4 Flag.helper) in
    let grown = Served-Extends zones zones' r x h in
    record {
      src = grown.src;
      dest = grown.dest;
      target = grown.target;
      dnat = grown.dnat;
      snat = grown.snat;
      helper = λ _ _.
          HasBit-modify_at r.src_zone (set_v4 Flag.helper) Flag.helper zones r.src.name given h.src
            (has-set_v4 Flag.helper);
      reflection = grown.reflection;
    }

wants_helper-src :
    (state : State) (r : Redirect) → wants_helper state r ≡ true → is_some r.src_zone ≡ true
unfolding wants_helper
wants_helper-src state r h = ground arith

-- What `select_helper` leaves, by its test.
pub select_helper-cases :
    (state : State) (r : Redirect)
    → (select_helper state r ≡ (state, r))
      ⊎ ((m : CtHelperMatch) × (wants_helper state r ≡ true)
          × (select_helper state r ≡ (
            record state { zones = modify_at r.src_zone (set_v4 Flag.helper) state.zones },
            record r { helper = m },
          )))
unfolding select_helper
select_helper-cases state r =
    let (n, p) = match_helpers state.cthelpers r.port_redir r.proto (0, none) in
    elim (Bool-cases (wants_helper state r && n == 1)) [
      | inl yes' ↦ inr (record r.helper { set = false; ptr = p }, ground arith, rw yes' refl)
      | inr no' ↦ inl (rw no' refl)
    ]

select_helper-Kept :
    (state state' : State) (r : Redirect)
    → Kept state state' r
    → Kept state (select_helper state' r).0 (select_helper state' r).1
select_helper-Kept state state' r (x, h, e) = elim (select_helper-cases state' r) [
  | inl same ↦ rw same (x, h, e)
  | inr (m, wants, chosen) ↦ rw chosen (
    Extends-trans state.zones state'.zones _ x
        (Extends-modify_at r.src_zone (set_v4 Flag.helper) state'.zones (Grows-set_v4 Flag.helper)),
    choose_helper-Served state'.zones r m (wants_helper-src state' r wants) h,
    e,
  )
]

abbrev redirects_of : State → List Redirect
redirects_of state = state.redirects

pub load_redirect_refused :
    (addrs : Zone → List Address) (state : State) (r : Redirect)
    → check_redirect addrs state r ≡ none
    → load_redirect addrs state (true, r) ≡ state
unfolding load_redirect add_redirect
load_redirect_refused addrs state r h = rw h refl

pub load_redirect_accepted :
    (addrs : Zone → List Address) (state state' : State) (r r' : Redirect)
    → check_redirect addrs state r ≡ some (state', r')
    → load_redirect addrs state (true, r) ≡ record (select_helper state' r').0 {
      redirects = (select_helper state' r').0.redirects ++ (select_helper state' r').1 ∷ [];
    }
unfolding load_redirect add_redirect
load_redirect_accepted addrs state state' r r' h = rw h refl

load_redirect-Adds :
    (addrs : Zone → List Address) (state : State) (s : Bool × Redirect)
    → Adds redirects_of Served Served-Extends state (load_redirect addrs state s)
load_redirect-Adds addrs state (false, r) = unfold load_redirect in inl refl
load_redirect-Adds addrs state (true, r) = elim (Option-cases (check_redirect addrs state r)) [
  | inl refused ↦ inl (load_redirect_refused addrs state r refused)
  | inr ((state', r'), checked) ↦
      let (x, h, e) =
        select_helper-Kept state state' r' (check_redirect-Kept addrs state state' r r' checked) in
      rw (load_redirect_accepted addrs state state' r r' checked)
        (inr ((select_helper state' r').1, x, rw e refl, h))
]

-- Whatever sections are read and whatever addresses the zones have: after `fw3_load_redirects` each
-- redirect kept is DNAT or SNAT; its zones are in the list; the source of a DNAT has the bit of its prerouting
-- chain, and with a helper that of its helper chain; the destination of a SNAT has the bit of its
-- postrouting chain, and that of a reflected DNAT the bits of its ACCEPT, prerouting and postrouting
-- chains. No zone is lost, and no bit of a zone is cleared.
pub load_redirects-Served :
    (addrs : Zone → List Address) (state : State) (sections : List (Bool × Redirect))
    → Extends state.zones (load_redirects addrs state sections).zones
      × All
          (Served (load_redirects addrs state sections).zones)
          (load_redirects addrs state sections).redirects
unfolding load_redirects
load_redirects-Served addrs state sections =
    each_section-Owes redirects_of Served Served-Extends (load_redirect addrs)
      (load_redirect-Adds addrs) (record state { redirects = [] }) sections refl
