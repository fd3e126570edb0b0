-- ===== src/Defaults/Check.antt =====
-- The checks of `fw3_load_defaults`, and the values it begins with.
use firewall.Common.{
  ◌||◌, not, ℕ, ◌≤◌, ◌≢◌, Bool, true, false, List, [], ◌∷◌, ◌≡◌, ◌⊎◌, arith, ◌==◌, ltb,
  if◌then◌else◌,
}
use firewall.Options.Flag
use firewall.Options.RejectCode
use firewall.Options.Types.{Defaults}

-- `check_policy` of defaults.c.
unfoldable pub check_policy : ℕ → ℕ
check_policy pol =
    if pol == Flag.unspec then Flag.drop else if ltb Flag.drop pol then Flag.drop else pol

unfoldable pub check_any_reject_code : ℕ → ℕ
check_any_reject_code code = if code == RejectCode.tcp_reset then RejectCode.port_unreach else code

-- The assignments at the head of `fw3_load_defaults`, over a state that calloc cleared.
unfoldable pub preset : Defaults → Defaults
preset d = record d {
  tcp_reject_code = RejectCode.tcp_reset;
  any_reject_code = RejectCode.port_unreach;
  syn_flood_rate = record d.syn_flood_rate { rate = 25; burst = 50 };
  tcp_syncookies = true;
  tcp_window_scaling = true;
  custom_chains = true;
  auto_helper = true;
}

-- The checks behind the option parser, where `offload` is the answer of `fw3_has_target` for
-- FLOWOFFLOAD.
unfoldable pub check_defaults : Bool → Defaults → Defaults
unfolding check_policy check_any_reject_code
check_defaults offload d = record d {
  policy_input = check_policy d.policy_input;
  policy_output = check_policy d.policy_output;
  policy_forward = check_policy d.policy_forward;
  any_reject_code = check_any_reject_code d.any_reject_code;
  flow_offloading = if offload then d.flow_offloading else false;
}

-- The loop over the `defaults` sections: the first is parsed and checked, later ones are ignored.
-- A section is given as what its options do to the structure.
unfoldable pub load_sections : Bool → List (Defaults → Defaults) → Defaults → Defaults
unfolding check_defaults
load_sections offload [] d = d
load_sections offload (parse ∷ ignored) d = check_defaults offload (parse d)

-- `fw3_load_defaults`.
unfoldable pub load_defaults : Bool → List (Defaults → Defaults) → Defaults → Defaults
unfolding preset load_sections
load_defaults offload sections d = load_sections offload sections (preset d)

abbrev pub IsPolicy : ℕ → Type 0
IsPolicy t = (t ≡ Flag.accept) ⊎ ((t ≡ Flag.reject) ⊎ (t ≡ Flag.drop))

-- The option parser leaves a policy unset or takes it from the table of targets.
abbrev pub IsParsed : ℕ → Type 0
IsParsed t = (t ≡ Flag.unspec) ⊎ (Flag.accept ≤ t)

pub record IsChecked (offload : Bool) (d : Defaults) : Type 0 where
  pub input : IsPolicy d.policy_input
  pub output : IsPolicy d.policy_output
  pub forward : IsPolicy d.policy_forward
  pub reject_code : d.any_reject_code ≢ RejectCode.tcp_reset
  pub offloading : (offload || not d.flow_offloading) ≡ true

check_policy-IsPolicy : (t : ℕ) → IsParsed t → IsPolicy (check_policy t)
unfolding check_policy
check_policy-IsPolicy t h = ground arith

-- A `defaults` section, whatever its options do as long as its policies come from the parser's
-- table: after the load each policy is ACCEPT, REJECT or DROP, the reject code for any protocol is
-- not that of TCP alone, and offloading is off where its target is missing.
pub load_defaults-IsChecked :
    (offload : Bool) (parse : Defaults → Defaults) (ignored : List (Defaults → Defaults))
    (d : Defaults)
    → IsParsed (parse (preset d)).policy_input
    → IsParsed (parse (preset d)).policy_output
    → IsParsed (parse (preset d)).policy_forward
    → IsChecked offload (load_defaults offload (parse ∷ ignored) d)
unfolding load_defaults
load_defaults-IsChecked offload parse ignored d pi po pf = record {
  input = check_policy-IsPolicy (parse (preset d)).policy_input pi;
  output = check_policy-IsPolicy (parse (preset d)).policy_output po;
  forward = check_policy-IsPolicy (parse (preset d)).policy_forward pf;
  reject_code = ground arith;
  offloading = ground arith;
}
