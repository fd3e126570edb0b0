-- ===== src/Main/Build.antt =====
-- `build_state`: the loaders of the components, in their order. A `Package` is what the option parsers
-- have made of the sections of a configuration and of the message bus.
pub mod Only
pub mod Whole
use firewall.Common.{Bool, List, Option}
use firewall.Options.Types.{Address, Defaults, Zone}
use firewall.Options.Types.Config.{CtHelper, Forward, Include, Ipset, Redirect, Rule, Snat, State}
use firewall.Ubus.{Interface}
use firewall.Defaults.Check.{load_defaults}
use firewall.Helpers.Load.{load_all}
use firewall.Ipsets.Check.{load_ipsets}
use firewall.Zones.Load.{load_zones}
use firewall.Rules.Load.{load_rules}
use firewall.Redirects.{load_redirects}
use firewall.Snats.{load_snats}
use firewall.Forwards.Check.{load_forwards}
use firewall.Includes.{load_includes}

pub record Package : Type 0 where
  pub defaults : List (Defaults → Defaults)
  pub shipped_helpers : Option (List CtHelper)
  pub cthelpers : List CtHelper
  pub ipsets : List (Bool × Ipset)
  pub zones : List Zone
  pub rules : List (Bool × Rule)
  pub redirects : List (Bool × Redirect)
  pub snats : List (Bool × Snat)
  pub forwards : List (Bool × Forward)
  pub includes : List (Bool × Include)

-- From `fw3_load_defaults` to `fw3_load_zones`. `offload` is the answer of `fw3_has_target`, `interfaces`
-- what the bus knows of the network.
unfoldable pub load_base : Bool → List Interface → Package → State → State
load_base offload interfaces p state =
    load_zones interfaces
      (load_ipsets
        (load_all p.shipped_helpers p.cthelpers
          (record state { defaults = load_defaults offload p.defaults state.defaults }))
        p.ipsets)
      p.zones

-- The state that calloc cleared, with the flags that `build_state` sets in it, is `state`.
unfoldable pub build_state : Bool → List Interface → (Zone → List Address) → Package → State → State
unfolding load_base
build_state offload interfaces addrs p state =
    let base = load_base offload interfaces p state in
    let ruled = load_rules base p.rules in
    let redirected = load_redirects addrs ruled p.redirects in
    let translated = load_snats redirected p.snats in
    let forwarded = load_forwards translated p.forwards in load_includes forwarded p.includes
