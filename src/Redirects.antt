-- ===== src/Redirects.antt =====
-- redirects.c: `check_redirect`, `select_helper` and `fw3_load_redirects`, over the sections that the
-- option parsers have filled in. `addrs` is `fw3_resolve_zone_addresses` with no address of its own.
pub mod Served
pub mod Marked
pub mod Kept
pub mod Loaded
pub mod Helper
pub mod Print
pub mod Expand
pub mod Exists
pub mod Reflected
use Prim.Native.Nat.{bit_and}
use firewall.Common.{
  ℕ, suc, Bool, true, false, not, ◌&&◌, ◌||◌, List, [], ◌∷◌, ◌++◌, Option, none, some, ◌==◌, ltb,
  null, is_some, if◌then◌else◌, get_elem?, find_index, guard, ◌>>=◌, ◌>>◌,
}
use firewall.Common.CString.{CString, snprintf}
use firewall.Options.Family
use firewall.Options.Flag
use firewall.Options.Types.{Address, InetAddr, in4, Port, Protocol, Zone}
use firewall.Options.Types.Config.{CtHelper, Redirect, State}
use firewall.Zones.Lookup.{modify, set_v4}
use firewall.Helpers.{check_proto, port_matches}
use firewall.Rules.Check.{resolve_zone, resolve_ipset, resolve_cthelper, tcpudp}
use firewall.Sections.{differs, zone_family, ipset_family, each_section}

abbrev helper_family : List CtHelper → Option ℕ → ℕ
helper_family helpers none = Family.any
helper_family helpers (some i) = elim (get_elem? helpers i) [
  | none ↦ Family.any
  | some h ↦ h.family
]

unfoldable pub check_families : State → Redirect → Bool
check_families state r =
    r.family == Family.any
    || not (differs r.family (zone_family state.zones r.src_zone))
      && not (differs r.family (zone_family state.zones r.dest_zone))
      && not (differs r.family (ipset_family state.ipsets r.ipset.ptr))
      && not (differs r.family (helper_family state.cthelpers r.helper.ptr))
      && not (differs r.family r.ip_src.family)
      && not (differs r.family r.ip_dest.family)
      && not (differs r.family r.ip_redir.family)

-- The IPv4 members of two addresses agree under a mask.
abbrev same_net : InetAddr → InetAddr → InetAddr → Bool
same_net (in4 a) (in4 b) (in4 m) = bit_and a m == bit_and b m
same_net _ _ _ = false

unfoldable pub compare_addr : Address → Address → Bool
compare_addr a b =
    a.family == Family.v4 && b.family == Family.v4 && same_net a.address b.address a.mask

-- An address of the list compares equal.
unfoldable pub has_addr : Address → List Address → Bool
unfolding compare_addr
has_addr b [] = false
has_addr b (a ∷ addrs) = compare_addr a b || has_addr b addrs

-- `resolve_dest`: the first zone that has the address, behind it its name.
unfoldable pub resolve_dest : (Zone → List Address) → List Zone → Address → Option (ℕ × CString)
unfolding has_addr
resolve_dest addrs zones addr = do
  guard addr.set
  i ← find_index (λ z. has_addr addr (addrs z)) zones
  z ← get_elem? zones i
  some (i, z.name)

-- A target that is missing or that a section cannot have becomes DNAT.
unfoldable pub default_target : ℕ → ℕ
default_target t =
    if t == Flag.unspec
    then Flag.dnat
    else if ltb t Flag.dnat || ltb Flag.snat t
    then Flag.dnat
    else t

unfoldable pub or_tcpudp : List Protocol → List Protocol
or_tcpudp ps = if null ps then tcpudp else ps

unfoldable pub dnat_valid : Redirect → Bool
dnat_valid r = not r.src.any && is_some r.src_zone && not r.helper.invert

unfoldable pub snat_valid : Redirect → Bool
snat_valid r =
    not r.dest.any && is_some r.dest_zone && r.ip_dest.set && null r.mac_src && not r.helper.set

-- A write through a pointer that may be NULL.
abbrev pub modify_at : Option ℕ → (Zone → Zone) → List Zone → List Zone
modify_at none f zones = zones
modify_at (some i) f zones = modify i f zones

-- `redir->_src->masq`.
abbrev pub masquerades : List Zone → Option ℕ → Bool
masquerades zones none = false
masquerades zones (some i) = elim (get_elem? zones i) [ none ↦ false | some z ↦ z.masq ]

-- `check_local`.
unfoldable pub check_local : Redirect → Bool
check_local r = if r.ip_redir.set then r.local else true

-- The destination of a section that names none, if a zone has its address.
unfoldable pub place : (Zone → List Address) → List Zone → Redirect → Redirect
unfolding check_local resolve_dest
place addrs zones r =
    let localized = record r { local = check_local r } in
    if check_local r || r.dest.set then localized else elim (resolve_dest addrs zones r.ip_redir) [
      | none ↦ localized
      | some (i, name) ↦ record localized {
        dest = record r.dest { set = true; name = snprintf 32 name };
        dest_zone = some i;
      }
    ]

-- The bits that the reflection of a redirect needs in its destination.
unfoldable pub set_reflection : Zone → Zone
set_reflection z = set_v4 Flag.snat (set_v4 Flag.dnat (set_v4 Flag.accept z))

abbrev pub reflects : List Zone → Redirect → Bool
reflects zones r = r.reflection && is_some r.dest_zone && masquerades zones r.src_zone

-- The zones of a DNAT section.
unfoldable pub mark_dnat : List Zone → Redirect → List Zone
unfolding set_reflection
mark_dnat zones r =
    let opened = modify_at r.src_zone (set_v4 Flag.dnat) zones in
    let reflected =
      if reflects zones r then modify_at r.dest_zone set_reflection opened else opened in
    if is_some r.helper.ptr then modify_at r.src_zone (set_v4 Flag.helper) reflected else reflected

unfoldable pub or_port : Port → Port → Port
or_port redir dest = if redir.set then redir else dest

unfoldable pub finish_dnat : (Zone → List Address) → State → Redirect → Option (State × Redirect)
unfolding dnat_valid place mark_dnat or_port
finish_dnat addrs state r = do
  guard (dnat_valid r)
  let placed = place addrs state.zones r
  some (
    record state { zones = mark_dnat state.zones placed },
    record placed { port_redir = or_port r.port_redir r.port_dest },
  )

unfoldable pub finish_snat : State → Redirect → Option (State × Redirect)
unfolding snat_valid
finish_snat state r = do
  guard (snat_valid r)
  some (record state { zones = modify_at r.dest_zone (set_v4 Flag.snat) state.zones }, r)

-- The tests behind the look-ups.
unfoldable pub finish_redirect :
    (Zone → List Address) → State → Redirect → Option (State × Redirect)
unfolding check_families default_target or_tcpudp finish_dnat finish_snat
finish_redirect addrs state r =
    let filled = record r { target = default_target r.target; proto = or_tcpudp r.proto } in
    if not (check_families state r)
    then none
    else if default_target r.target == Flag.dnat
    then finish_dnat addrs state filled
    else finish_snat state filled

unfoldable pub check_redirect : (Zone → List Address) → State → Redirect → Option (State × Redirect)
unfolding finish_redirect
check_redirect addrs state r = do
  guard r.enabled
  guard (not r.src.invert)
  src_zone ← resolve_zone state.zones r.src
  dest_zone ← resolve_zone state.zones r.dest
  ipset ← resolve_ipset state r.ipset
  helper ← resolve_cthelper state r.helper
  finish_redirect addrs state
      (record r { src_zone = src_zone; dest_zone = dest_zone; ipset = ipset; helper = helper })

-- `fw3_lookup_cthelper_by_proto_port`, as a pointer into the list.
unfoldable pub helper_by_port : List CtHelper → Protocol → Port → Option ℕ
unfolding check_proto port_matches
helper_by_port helpers proto port =
    if proto.protocol == 0 || proto.any || proto.invert || port.invert
    then none
    else find_index (λ h. h.enabled && check_proto h.proto proto && port_matches h.port (some port))
        helpers

-- The loop of `select_helper`: `n_matches`, and `helper` as the last turn leaves it.
unfoldable pub match_helpers : List CtHelper → Port → List Protocol → ℕ × Option ℕ → ℕ × Option ℕ
unfolding helper_by_port
match_helpers helpers port [] (n_matches, helper) = (n_matches, helper)
match_helpers helpers port (proto ∷ protos) (n_matches, helper) =
    let found = helper_by_port helpers proto port in
    match_helpers helpers port protos (if is_some found then suc n_matches else n_matches, found)

-- The tests at the head of `select_helper`.
unfoldable pub wants_helper : State → Redirect → Bool
wants_helper state r =
    state.defaults.auto_helper
    && (is_some r.src_zone && r.target == Flag.dnat)
    && (r.port_redir.set && not r.port_redir.invert)
    && not (r.helper.set || is_some r.helper.ptr)
    && not (null r.proto)

unfoldable pub select_helper : State → Redirect → State × Redirect
unfolding match_helpers wants_helper
select_helper state r =
    let (n_matches, helper) = match_helpers state.cthelpers r.port_redir r.proto (0, none) in
    if wants_helper state r && n_matches == 1
    then (
      record state { zones = modify_at r.src_zone (set_v4 Flag.helper) state.zones },
      record r { helper = record r.helper { set = false; ptr = helper } },
    )
    else (state, r)

-- What becomes of a section that was checked: it is freed, or its helper is chosen and it stays.
unfoldable pub add_redirect : State → Option (State × Redirect) → State
unfolding select_helper
add_redirect state none = state
add_redirect state (some (state', r')) =
    let (state'', r'') = select_helper state' r' in
    record state'' { redirects = state''.redirects ++ r'' ∷ [] }

-- One turn of either loop; the Boolean tells whether the options were valid.
unfoldable pub load_redirect : (Zone → List Address) → State → Bool × Redirect → State
unfolding check_redirect add_redirect
load_redirect addrs state (false, r) = state
load_redirect addrs state (true, r) = add_redirect state (check_redirect addrs state r)

-- `INIT_LIST_HEAD(&state->redirects)`, then the sections.
unfoldable pub load_redirects : (Zone → List Address) → State → List (Bool × Redirect) → State
unfolding load_redirect
load_redirects addrs state sections =
    each_section (load_redirect addrs) (record state { redirects = [] }) sections
