-- ===== src/Zones/Verdicts.antt =====
-- The rules of a zone's verdict chains, in `print_interface_rule`, and the names and rules that its tables
-- share.
use firewall.Common.{
  ℕ, false, not, ◌&&◌, [], ◌∷◌, ◌++◌, Option, none, some, ◌==◌, ltb, if◌then◌else◌, concat_map,
}
use firewall.Common.Bits.{hasbit}
use firewall.Common.CString.{CString, codes, snprintf}
use firewall.Options.Flag
use firewall.Options.Names.{flag_names, name_at}
use firewall.Options.Types.{Address, Device, Zone}
use firewall.Options.Types.Config.{State}
use firewall.Utils.Flags.{has}
use firewall.Iptables.{
  Handle, RuleCall, IptRule, Trace, create, target, comment, extra, addarg, limit, replace,
}
use firewall.Rules.Check.{to_src_target}

-- FW3_ZONE_LOG_FILTER and FW3_ZONE_LOG_MANGLE, by their place.
abbrev pub log_filter : ℕ
log_filter = 0

abbrev pub log_mangle : ℕ
log_mangle = 1

-- `jump_target(t)`.
unfoldable pub jump_target : ℕ → CString
jump_target t = if t == Flag.reject then codes "reject" else name_at flag_names t

-- What a packet that comes in from, or goes out to, a device and a subnet of the zone is matched by.
abbrev pub incoming : Option Device → Option Address → RuleCall
incoming dev sub = create none dev none sub none

abbrev pub outgoing : Option Device → Option Address → RuleCall
outgoing dev sub = create none none dev none sub

abbrev pub zone_chain : Zone → CString → CString
zone_chain zone word = codes "zone_" ++ zone.name ++ word

-- The chain of a verdict for packets from the zone, and for those to it.
unfoldable pub src_of : Zone → ℕ → CString
src_of zone t = codes "zone_" ++ zone.name ++ codes "_src_" ++ name_at flag_names t

unfoldable pub dest_of : Zone → ℕ → CString
dest_of zone t = codes "zone_" ++ zone.name ++ codes "_dest_" ++ name_at flag_names t

-- A rule that logs; `snprintf(buf, sizeof(buf) - 1, ...)` into `char buf[32]`.
unfoldable pub log_calls : Zone → CString → IptRule
log_calls zone prefix =
    limit zone.log_limit
    ∷ target (codes "LOG")
    ∷ addarg false (codes "--log-prefix") (some (snprintf 31 prefix))
    ∷ []

unfoldable pub log_rules : Handle → Zone → Option Device → Option Address → ℕ → Trace
unfolding log_calls src_of dest_of
log_rules h zone dev sub t =
    if ltb Flag.accept t && hasbit zone.log log_filter
    then (if has zone.flags h.family (to_src_target t)
        then replace
            (incoming dev sub
              ∷ log_calls zone (name_at flag_names t ++ codes " " ++ zone.name ++ codes " in: "))
            (src_of zone t)
          ∷ []
        else [])
      ++ (if has zone.flags h.family t
          then replace
              (outgoing dev sub
                ∷ log_calls zone (name_at flag_names t ++ codes " " ++ zone.name ++ codes " out: "))
              (dest_of zone t)
            ∷ []
          else [])
    else []

unfoldable pub src_rules : Handle → State → Zone → Option Device → Option Address → ℕ → Trace
unfolding jump_target src_of
src_rules h state zone dev sub t =
    if has zone.flags h.family (to_src_target t)
    then replace
        (incoming dev sub
          ∷ target (jump_target t)
          ∷ extra zone.extra_src
          ∷ (if t == Flag.accept && not state.defaults.drop_invalid
              then extra (some (codes "-m conntrack --ctstate NEW,UNTRACKED")) ∷ []
              else []))
        (src_of zone t)
      ∷ []
    else []

unfoldable pub dest_rules : Handle → Zone → Option Device → Option Address → ℕ → Trace
unfolding jump_target dest_of
dest_rules h zone dev sub t =
    if has zone.flags h.family t
    then (if t == Flag.accept && zone.masq && not zone.masq_allow_invalid
        then replace
            (outgoing dev sub
              ∷ extra (some (codes "-m conntrack --ctstate INVALID"))
              ∷ comment (codes "Prevent NAT leakage")
              ∷ target (name_at flag_names Flag.drop)
              ∷ [])
            (dest_of zone t)
          ∷ []
        else [])
      ++ replace (outgoing dev sub ∷ target (jump_target t) ∷ extra zone.extra_dest ∷ [])
          (dest_of zone t)
        ∷ []
    else []

-- The loop over ACCEPT, REJECT and DROP.
unfoldable pub verdict_rules : Handle → State → Zone → Option Device → Option Address → Trace
unfolding log_rules src_rules dest_rules
verdict_rules h state zone dev sub =
    concat_map
      (λ t.
        log_rules h zone dev sub t
        ++ (src_rules h state zone dev sub t ++ dest_rules h zone dev sub t))
      (Flag.accept ∷ Flag.reject ∷ Flag.drop ∷ [])
