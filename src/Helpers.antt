-- ===== src/Helpers.antt =====
-- helpers.c: connection tracking helpers.
pub mod Load
pub mod Print
use firewall.Common.{
  Bool, true, false, not, ◌&&◌, ◌||◌, List, [], ◌∷◌, Option, none, some, ◌==◌, leb, null,
}
use firewall.Options.Types.{Port, Protocol}
use firewall.Options.Types.Config.{CtHelper}

-- `fw3_cthelper_check_proto`.
unfoldable pub check_proto : List Protocol → Protocol → Bool
check_proto [] proto = false
check_proto (p ∷ ps) proto = p.protocol == proto.protocol || check_proto ps proto

-- `check_cthelper_proto`.
unfoldable pub all_plain : List Protocol → Bool
all_plain [] = true
all_plain (p ∷ ps) = not (p.protocol == 0 || p.any || p.invert) && all_plain ps

unfoldable pub check_cthelper_proto : List Protocol → Bool
unfolding all_plain
check_cthelper_proto ps = not (null ps) && all_plain ps

abbrev pub given {ℓ} : {A : Type ℓ} → Option (List A) → Bool
given none = false
given (some s) = not (null s)

-- `check_cthelper`.
unfoldable pub check_cthelper : CtHelper → Bool
unfolding check_cthelper_proto
check_cthelper helper =
    not (null helper.name)
    && given helper.module_name
    && check_cthelper_proto helper.proto
    && not (helper.port.set && helper.port.invert)

-- The tests of one turn of the loop of `fw3_lookup_cthelper_by_proto_port`, on a helper that is
-- not skipped by its state or protocol; `port` may be NULL.
unfoldable pub port_matches : Port → Option Port → Bool
port_matches own none = not own.set
port_matches own (some port) =
    not own.set && not port.set
    || own.set && port.set && leb own.port_min port.port_min && leb port.port_max own.port_max

unfoldable pub find_by_port : List CtHelper → Protocol → Option Port → Option CtHelper
unfolding check_proto port_matches
find_by_port [] proto port = none
find_by_port (h ∷ hs) proto port =
    elim (h.enabled && check_proto h.proto proto && port_matches h.port port) [
      | true ↦ some h
      | false ↦ find_by_port hs proto port
    ]

abbrev inverted : Option Port → Bool
inverted none = false
inverted (some port) = port.invert

-- `fw3_lookup_cthelper_by_proto_port`.
unfoldable pub lookup_cthelper_by_proto_port :
    List CtHelper → Option Protocol → Option Port → Option CtHelper
unfolding find_by_port
lookup_cthelper_by_proto_port hs none port = none
lookup_cthelper_by_proto_port hs (some proto) port =
    elim (proto.protocol == 0 || proto.any || proto.invert || inverted port) [
      | true ↦ none
      | false ↦ find_by_port hs proto port
    ]
