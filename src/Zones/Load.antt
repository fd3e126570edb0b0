-- ===== src/Zones/Load.antt =====
-- `fw3_load_zones`, over the sections that the option parsers have filled in, whether or not all
-- their options were valid. `interfaces` is what the message bus knows of the network.
pub mod Bits
pub mod Loaded
use firewall.Common.{
  ℕ, ◌+◌, Bool, false, not, ◌&&◌, ◌||◌, List, [], ◌∷◌, ◌++◌, Option, none, some, ◌==◌, ltb, leb,
  null, length, if◌then◌else◌, guard, ◌>>=◌, ◌>>◌, get_elem?,
}
use firewall.Common.CString.{CString, streq, snprintf}
use firewall.Options.Family
use firewall.Options.Flag
use firewall.Options.Types.{Address, CtHelperMatch, Defaults, Device, Zone}
use firewall.Options.Types.Config.{CtHelper, State}
use firewall.Utils.Flags.{Flags, is_family}
use firewall.Utils.Flags
use firewall.Ubus.{Interface, ubus_device, ubus_zone_devices}
use firewall.Zones.ChainNames.{zone_maxnamelen}
use firewall.Rules.Check.{lookup_cthelper, to_src_target}

-- `check_policy` of zones.c.
unfoldable pub zone_policy : ℕ → ℕ → ℕ
zone_policy pol def = if pol == Flag.unspec then def else if ltb Flag.drop pol then def else pol

-- The loop of `check_masq_addrs`: `n_addr` and `n_failed`.
unfoldable pub count_addrs : List Address → ℕ × ℕ
count_addrs [] = (0, 0)
count_addrs (addr ∷ addrs) =
    let (n_addr, n_failed) = count_addrs addrs in
    if addr.invert
    then (n_addr, n_failed)
    else (n_addr + 1, if not addr.set && addr.resolved then n_failed + 1 else n_failed)

unfoldable pub check_masq_addrs : List Address → Bool
unfolding count_addrs
check_masq_addrs addrs =
    let (n_addr, n_failed) = count_addrs addrs in n_addr == 0 || ltb n_failed n_addr

-- A device of the list has the name.
unfoldable pub has_device : CString → List Device → Bool
has_device name [] = false
has_device name (d ∷ devices) = streq d.name name || has_device name devices

-- `resolve_networks`, as the devices that it leaves the zone.
unfoldable pub resolve_networks : List Interface → List Device → List Device → List Device
unfolding has_device
resolve_networks interfaces [] devices = devices
resolve_networks interfaces (net ∷ networks) devices = elim (ubus_device interfaces net.name) [
  | none ↦ resolve_networks interfaces networks devices
  | some dev ↦ resolve_networks interfaces networks (
      if has_device dev.name devices
      then devices
      else devices ++ record dev { network = snprintf 32 net.name } ∷ [])
]

abbrev pub set_if : Bool → ℕ → ℕ → Flags → Flags
set_if on family flag flags = if on then Flags.set flags family flag else flags

-- The helper that a pointer names, for a family.
abbrev helper_is_family : List CtHelper → ℕ → ℕ → Bool
helper_is_family helpers i family = elim (get_elem? helpers i) [
  | none ↦ false
  | some h ↦ is_family h.family family
]

-- The helper that a match names, unless it is negated.
unfoldable pub match_helper : List CtHelper → CtHelperMatch → Option ℕ
match_helper helpers m = if m.invert then none else lookup_cthelper helpers m.name

-- The bit of the helper chain, for each family of the helper.
unfoldable pub mark_helper : List CtHelper → ℕ → Flags → Flags
mark_helper helpers i flags =
    set_if (helper_is_family helpers i Family.v6) Family.v6 Flag.helper
      (set_if (helper_is_family helpers i Family.v4) Family.v4 Flag.helper flags)

-- The loop of `resolve_cthelpers`: the matches with their pointers, and the flags.
unfoldable pub resolve_matches :
    List CtHelper → List CtHelperMatch → Flags → List CtHelperMatch × Flags
unfolding match_helper mark_helper
resolve_matches helpers [] flags = ([], flags)
resolve_matches helpers (m ∷ ms) flags = elim (match_helper helpers m) [
  | none ↦ let (ms', flags') = resolve_matches helpers ms flags in (m ∷ ms', flags')
  | some i ↦
      let (ms', flags') = resolve_matches helpers ms (mark_helper helpers i flags) in
      (record m { ptr = some i } ∷ ms', flags')
]

unfoldable pub resolve_cthelpers : List CtHelper → Zone → Zone
unfolding resolve_matches
resolve_cthelpers helpers zone =
    let auto = not zone.masq && zone.auto_helper in
    let (ms, flags) = resolve_matches helpers zone.cthelpers zone.flags in
    if null zone.cthelpers
    then record zone {
      flags = set_if auto Family.v6 Flag.helper (set_if auto Family.v4 Flag.helper zone.flags);
    }
    else record zone { cthelpers = ms; flags = flags }

-- The options that a zone takes from others or from the defaults.
unfoldable pub inherit : Defaults → Zone → Zone
inherit defs zone = record zone {
  extra_dest = elim zone.extra_dest [ none ↦ zone.extra_src | some s ↦ some s ];
  custom_chains = defs.custom_chains && zone.custom_chains;
  auto_helper = defs.auto_helper && zone.auto_helper;
}

-- From `fw3_ubus_zone_devices` to `resolve_networks`.
unfoldable pub resolve_zone_options : List Interface → Defaults → Zone → Zone
unfolding zone_policy check_masq_addrs resolve_networks
resolve_zone_options interfaces defs zone =
    let networks = zone.networks ++ ubus_zone_devices interfaces zone.name in
    record zone {
      networks = networks;
      masq = zone.masq && check_masq_addrs zone.masq_src && check_masq_addrs zone.masq_dest;
      policy_input = zone_policy zone.policy_input defs.policy_input;
      policy_output = zone_policy zone.policy_output defs.policy_output;
      policy_forward = zone_policy zone.policy_forward defs.policy_forward;
      devices = resolve_networks interfaces networks zone.devices;
    }

-- The bits of the nat chains that a zone needs.
unfoldable pub mark_nat : Zone → Zone
mark_nat zone = record zone {
  flags = set_if zone.custom_chains Family.v4 Flag.dnat (
      set_if zone.custom_chains Family.v4 Flag.snat
        (set_if zone.masq Family.v4 Flag.snat zone.flags));
}

-- The bits of a zone's own policies in the word of one family.
unfoldable pub mark_policies : ℕ → Zone → Zone
mark_policies family zone = record zone {
  flags =
      Flags.set
        (Flags.set (Flags.set zone.flags family (to_src_target zone.policy_input)) family
          zone.policy_forward)
        family zone.policy_output;
}

-- One section: none if it is freed.
unfoldable pub load_zone : List Interface → State → Zone → Option Zone
unfolding inherit resolve_zone_options mark_nat resolve_cthelpers mark_policies
load_zone interfaces state zone = do
  guard zone.enabled
  let inherited = inherit state.defaults zone
  guard (not (null inherited.name))
  guard (leb (length inherited.name) zone_maxnamelen)
  let resolved = resolve_zone_options interfaces state.defaults inherited
  some (
      mark_policies Family.v6
        (mark_policies Family.v4 (resolve_cthelpers state.cthelpers (mark_nat resolved))))

unfoldable pub load_sections : List Interface → State → List Zone → List Zone
unfolding load_zone
load_sections interfaces state [] = []
load_sections interfaces state (s ∷ sections) =
    let rest = load_sections interfaces state sections in
    elim (load_zone interfaces state s) [ none ↦ rest | some zone ↦ zone ∷ rest ]

-- `fw3_load_zones`.
unfoldable pub load_zones : List Interface → State → List Zone → State
unfolding load_sections
load_zones interfaces state sections = record state {
  zones = load_sections interfaces state sections;
}
