-- ===== src/Forwards/Print.antt =====
-- `fw3_print_forwards`: the chain and the target of a forward's rule.
use firewall.Common.{
  ℕ, Bool, true, not, ◌||◌, List, [], ◌∷◌, ◌++◌, Option, none, some, ◌==◌, if◌then◌else◌, get_elem?,
  concat_map,
}
use firewall.Common.CString.{CString, codes}
use firewall.Options.Table
use firewall.Options.Types.{Zone}
use firewall.Options.Types.Config.{Forward, State}
use firewall.Utils.Flags.{is_family}
use firewall.Iptables.{Handle, Trace, comment, target, append}

-- `append_chain`, as the chain to which it appends.
unfoldable pub append_chain : Forward → CString
append_chain forward =
    if forward.src.any || not forward.src.set
    then codes "FORWARD"
    else codes "zone_" ++ forward.src.name ++ codes "_forward"

-- `set_target`, as the name of the target.
unfoldable pub set_target : Forward → CString
set_target forward =
    if forward.dest.any || not forward.dest.set
    then codes "ACCEPT"
    else codes "zone_" ++ forward.dest.name ++ codes "_dest_ACCEPT"

-- The zone that a pointer names; none for NULL.
abbrev pub deref : List Zone → Option ℕ → Option Zone
deref zones none = none
deref zones (some i) = get_elem? zones i

-- `zone ? zone->name : "*"`.
abbrev zone_name : Option Zone → CString
zone_name none = codes "*"
zone_name (some z) = z.name

-- `fw3_is_family(zone, family)` for a zone that may be NULL.
abbrev pub zone_is_family : Option Zone → ℕ → Bool
zone_is_family none family = true
zone_is_family (some z) family = is_family z.family family

unfoldable pub print_forward : Handle → List Zone → Forward → Trace
unfolding append_chain set_target
print_forward h zones forward =
    let src = deref zones forward.src_zone in
    let dest = deref zones forward.dest_zone in
    if not (h.table == Table.filter)
    then []
    else if not (is_family forward.family h.family)
    then []
    else if not (zone_is_family src h.family) || not (zone_is_family dest h.family)
    then []
    else append
        (comment (
            codes "Zone "
            ++ zone_name src
            ++ codes " to "
            ++ zone_name dest
            ++ codes " forwarding policy")
          ∷ target (set_target forward)
          ∷ [])
        (append_chain forward)
      ∷ []

-- `fw3_print_forwards`.
unfoldable pub print_forwards : Handle → State → Trace
unfolding print_forward
print_forwards h state = concat_map (print_forward h state.zones) state.forwards
