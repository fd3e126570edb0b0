-- ===== src/Redirects/Helper.antt =====
-- Which helper `select_helper` chooses.
use firewall.Common.{
  ℕ, suc, ◌+◌, true, List, [], ◌∷◌, ◌++◌, Option, none, ◌≡◌, refl, arith, is_some, length, keep,
  if◌then◌else◌, ◌∙◌,
}
use firewall.Options.Flag
use firewall.Options.Types.{Port, Protocol}
use firewall.Options.Types.Config.{CtHelper, Redirect, State}
use firewall.Zones.Lookup.{set_v4}
use firewall.Redirects.{helper_by_port, match_helpers, modify_at, select_helper, wants_helper}

-- The protocols for which the look-up finds a helper.
abbrev pub with_helper : List CtHelper → Port → List Protocol → List Protocol
with_helper helpers port ps = keep (λ p. is_some (helper_by_port helpers p port)) ps

length-with_helper :
    (helpers : List CtHelper) (port : Port) (p : Protocol) (ps : List Protocol) (n : ℕ)
    → (if is_some (helper_by_port helpers p port) then suc n else n)
        + length (with_helper helpers port ps)
      ≡ n + length (with_helper helpers port (p ∷ ps))
length-with_helper helpers port p ps n = ground arith

match_helpers-count :
    (helpers : List CtHelper) (port : Port) (ps : List Protocol) (n : ℕ) (h : Option ℕ)
    → (match_helpers helpers port ps (n, h)).0 ≡ n + length (with_helper helpers port ps)
unfolding match_helpers
match_helpers-count helpers port [] n h = omega arith
match_helpers-count helpers port (p ∷ ps) n h =
    match_helpers-count helpers port ps
      (if is_some (helper_by_port helpers p port) then suc n else n) (helper_by_port helpers p port)
    ∙ length-with_helper helpers port p ps n

match_helpers-last :
    (helpers : List CtHelper) (port : Port) (ps : List Protocol) (p : Protocol) (n : ℕ)
    (h : Option ℕ)
    → (match_helpers helpers port (ps ++ p ∷ []) (n, h)).1 ≡ helper_by_port helpers p port
unfolding match_helpers
match_helpers-last helpers port [] p n h = refl
match_helpers-last helpers port (q ∷ ps) p n h =
    match_helpers-last helpers port ps p
      (if is_some (helper_by_port helpers q port) then suc n else n) (helper_by_port helpers q port)

-- For a redirect that wants a helper, where exactly one of its protocols has one: the source's helper chain
-- is marked, and the helper chosen is what the look-up gave for the last of the protocols, which is
-- none where the one with a helper stands before it.
pub select_helper_last :
    (state : State) (r : Redirect) (ps : List Protocol) (p : Protocol)
    → r.proto ≡ ps ++ p ∷ []
    → wants_helper state r ≡ true
    → length (with_helper state.cthelpers r.port_redir r.proto) ≡ 1
    → ((select_helper state r).1.helper.ptr ≡ helper_by_port state.cthelpers p r.port_redir)
      × ((select_helper state r).0.zones ≡ modify_at r.src_zone (set_v4 Flag.helper) state.zones)
unfolding select_helper
select_helper_last state r ps p e wants one =
    let count : (match_helpers state.cthelpers r.port_redir r.proto (0, none)).0 ≡ 1 =
      omega (arith, match_helpers-count state.cthelpers r.port_redir r.proto 0 none, one) in
    let last : (match_helpers state.cthelpers r.port_redir r.proto (0, none)).1
        ≡ helper_by_port state.cthelpers p r.port_redir =
      rw e (match_helpers-last state.cthelpers r.port_redir ps p 0 none) in
    rw (wants, count) (last, refl)
