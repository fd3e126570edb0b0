-- ===== src/Rules/Check.antt =====
-- `check_rule`. It fails, or leaves the rule with its pointers resolved and its gaps filled, and
-- the zones with the bits of the chains that the rule needs. A rule that fails is freed, and no
-- zone is written before the last test.
pub mod Accepted
use firewall.Common.{
  ℕ, ◌+◌, ◌-◌, Bool, false, not, ◌&&◌, ◌||◌, List, [], ◌∷◌, Option, none, some, ◌==◌, ltb, null,
  is_some, if◌then◌else◌, get_elem?, find_index, guard, ◌>>=◌, ◌>>◌,
}
use firewall.Common.CString.{CString, streq, streq_nocase}
use firewall.Options.Flag
use firewall.Options.Types.{Device, SetMatch, CtHelperMatch, Protocol, Zone}
use firewall.Options.Types.Config.{Rule, State, Ipset, CtHelper}
use firewall.Zones.Lookup.{lookup_zone, modify, set_both}

-- `fw3_to_src_target(t)`.
abbrev pub to_src_target : ℕ → ℕ
to_src_target t = Flag.src_accept - Flag.accept + t

-- `!strcmp(s->name, name)`. A set that `check_ipset` accepts has a name.
abbrev has_name : CString → Option CString → Bool
has_name name none = false
has_name name (some n) = streq n name

-- `fw3_lookup_ipset`.
unfoldable pub lookup_ipset : List Ipset → CString → Option ℕ
lookup_ipset ipsets name = find_index (λ s. has_name name s.name) ipsets

-- `fw3_lookup_cthelper`.
unfoldable pub lookup_cthelper : List CtHelper → CString → Option ℕ
lookup_cthelper helpers name = find_index (λ h. streq_nocase h.name name) helpers

-- `dev.set && !dev.any && !(zone = fw3_lookup_zone(state, dev.name))` fails; otherwise the pointer,
-- which is NULL if the section names no zone.
unfoldable pub resolve_zone : List Zone → Device → Option (Option ℕ)
resolve_zone zones dev =
    if dev.set && not dev.any then (do i ← lookup_zone zones dev.name; some (some i)) else some none

unfoldable pub resolve_ipset : State → SetMatch → Option SetMatch
resolve_ipset state m =
    if m.set
    then (do
      guard (not state.disable_ipsets)
      i ← lookup_ipset state.ipsets m.name
      some (record m { ptr = some i }))
    else some m

unfoldable pub resolve_cthelper : State → CtHelperMatch → Option CtHelperMatch
resolve_cthelper state m =
    if m.set
    then (do i ← lookup_cthelper state.cthelpers m.name; some (record m { ptr = some i }))
    else some m

-- `need_src_action_chain(r)`, with the zone that `r->_src` points to.
unfoldable pub need_src_action_chain : List Zone → Option ℕ → ℕ → Bool
need_src_action_chain zones none target = false
need_src_action_chain zones (some i) target = elim (get_elem? zones i) [
  | none ↦ false
  | some z ↦ not (z.log == 0) && ltb Flag.accept target
]

-- The tests on the targets that need an option of their own.
unfoldable pub target_has_options : Rule → Bool
target_has_options r =
    not (not (is_some r.src_zone) && (r.target == Flag.notrack || r.target == Flag.helper))
    && not (not r.set_mark.set && not r.set_xmark.set && r.target == Flag.mark)
    && not (not r.set_dscp.set && r.target == Flag.dscp)
    && not (r.set_mark.invert || r.set_xmark.invert || r.set_dscp.invert)
    && not (not r.set_helper.set && r.target == Flag.helper)
    && not (r.set_helper.invert && r.target == Flag.helper)

-- `fw3_parse_protocol(&r->proto, "tcpudp", true)`.
abbrev pub tcpudp : List Protocol
tcpudp =
    record { any = false; invert = false; protocol = 6 }
    ∷ record { any = false; invert = false; protocol = 17 }
    ∷ []

-- A target that is missing or that a rule cannot have becomes REJECT.
unfoldable pub default_target : ℕ → ℕ
default_target t =
    if t == Flag.unspec then Flag.reject else if ltb Flag.dscp t then Flag.reject else t

-- The bits by which the zones learn which chains the rule needs.
unfoldable pub mark_zones : List Zone → Option ℕ → Option ℕ → ℕ → List Zone
unfolding need_src_action_chain
mark_zones zones src_zone (some d) target = modify d (set_both target) zones
mark_zones zones none none target = zones
mark_zones zones (some s) none target =
    if need_src_action_chain zones (some s) target
    then modify s (set_both (to_src_target target)) zones
    else zones

unfoldable pub check_rule : State → Rule → Option (State × Rule)
unfolding target_has_options default_target
check_rule state r = do
  guard r.enabled
  guard (not (r.src.invert || r.dest.invert))
  src_zone ← resolve_zone state.zones r.src
  dest_zone ← resolve_zone state.zones r.dest
  ipset ← resolve_ipset state r.ipset
  helper ← resolve_cthelper state r.helper
  set_helper ← resolve_cthelper state r.set_helper
  let resolved = record r {
    src_zone = src_zone;
    dest_zone = dest_zone;
    ipset = ipset;
    helper = helper;
    set_helper = set_helper;
  }
  guard (target_has_options resolved)
  let target = default_target r.target
  some (
    record state { zones = mark_zones state.zones src_zone dest_zone target },
    record resolved { proto = if null r.proto then tcpudp else r.proto; target = target },
  )
