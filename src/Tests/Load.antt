-- ===== src/Tests/Load.antt =====
-- The results on zones as they are loaded, and on the state as it is built, at concrete inputs.
use firewall.Common.{◌^◌, ◌+◌, true, false, [], ◌∷◌, none, some, refl, arith, inl, inr, All}
use firewall.Common.CString.{codes}
use firewall.Options.Flag
use firewall.Options.Types.{Zone}
use firewall.Ubus.{Interface}
use firewall.Defaults.Check.{load_defaults, preset}
use firewall.Zones.Load.{load_zones}
use firewall.Zones.Load.Loaded.{IsLoaded, IsSection, HasPolicy, load_zones-IsLoaded}
use firewall.Zones.Rules.Jumps.{policy_jumps}
use firewall.Zones.Rules.Exists.{Lands, policy_jumps-Lands}
use firewall.Main.Build.{Package, load_base, build_state}
use firewall.Main.Build.Whole.{IsBuilt, build_state-IsBuilt}
use firewall.Tests.Sample.{lan, wan, no_defaults, two_zones, drop_lan, forward_lan}
use firewall.Tests.NatSample.{ftp_redirect, ftp_helper, snat_wan, restore_file}

-- What the bus says of the network `lan`.
abbrev lan_interface : Interface
lan_interface = record {
  interface = some (codes "lan");
  device = some (codes "br-lan");
  l3_device = none;
  ipv4_address = [];
  ipv6_address = [];
  ipv6_prefix = [];
  zone = some (codes "lan");
}

has_policy : HasPolicy no_defaults
has_policy = record {
  policy_input = inr (inl refl);
  policy_output = inl refl;
  policy_forward = inr (inr refl);
}

lan-IsSection : IsSection lan
lan-IsSection = record {
  policy_input = inr (omega arith);
  policy_output = inr (omega arith);
  policy_forward = inr (omega arith);
}

-- `wan` with its policies left to the defaults.
abbrev open_wan : Zone
open_wan = record wan { masq = true; policy_input = 0; policy_output = 0; policy_forward = 0 }

wan-IsSection : IsSection open_wan
wan-IsSection = record {
  policy_input = inl refl;
  policy_output = inl refl;
  policy_forward = inl refl;
}

load_zones-IsLoaded_example :
    All IsLoaded (load_zones (lan_interface ∷ []) two_zones (lan ∷ open_wan ∷ [])).zones
load_zones-IsLoaded_example =
    load_zones-IsLoaded (lan_interface ∷ []) two_zones (lan ∷ open_wan ∷ []) has_policy
      (lan-IsSection, (wan-IsSection, tt))

-- `lan`, with the bits of its policies: accept, reject, and accept from itself.
abbrev loaded_lan : Zone
loaded_lan = record lan {
  flags = record {
    v4 = 2 ^ Flag.src_accept + 2 ^ Flag.reject + 2 ^ Flag.accept;
    v6 = 2 ^ Flag.src_accept + 2 ^ Flag.reject + 2 ^ Flag.accept;
  };
}

policy_jumps-Lands_example : All (Lands 4 false loaded_lan) (policy_jumps loaded_lan)
unfolding firewall.Utils.Flags.has firewall.Common.Bits.hasbit firewall.Utils.Flags.is_family
policy_jumps-Lands_example =
    policy_jumps-Lands 4 false loaded_lan
      (record {
        named = refl;
        short = omega arith;
        policy_input = inl refl;
        policy_output = inl refl;
        policy_forward = inr (inl refl);
        bits_v4 = record { input = refl; forward = refl; output = refl };
        bits_v6 = record { input = refl; forward = refl; output = refl };
        snat = refl;
      })
      (inl refl) refl

-- A small_package with one section of each kind.
abbrev small_package : Package
small_package = record {
  defaults = (λ d. d) ∷ [];
  shipped_helpers = some (ftp_helper ∷ []);
  cthelpers = [];
  ipsets = [];
  zones = lan ∷ open_wan ∷ [];
  rules = (true, drop_lan) ∷ [];
  redirects = (true, ftp_redirect) ∷ [];
  snats = (true, snat_wan) ∷ [];
  forwards = (true, forward_lan) ∷ [];
  includes = (true, restore_file) ∷ [];
}

small_package-HasPolicy : HasPolicy (load_defaults false small_package.defaults two_zones.defaults)
unfolding load_defaults preset firewall.Defaults.Check.load_sections
    firewall.Defaults.Check.check_defaults firewall.Defaults.Check.check_policy
small_package-HasPolicy = record {
  policy_input = inr (inl refl);
  policy_output = inl refl;
  policy_forward = inr (inr refl);
}

build_state-IsBuilt_example :
    IsBuilt
      (load_base false (lan_interface ∷ []) small_package two_zones).zones
      (build_state false (lan_interface ∷ []) (λ z. []) small_package two_zones)
build_state-IsBuilt_example =
    build_state-IsBuilt false (lan_interface ∷ []) (λ z. []) small_package two_zones
      small_package-HasPolicy (lan-IsSection, (wan-IsSection, tt))
