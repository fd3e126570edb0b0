-- ===== src/Main/Tables/Zones.antt =====
-- The rules of zones create no chain.
use firewall.Common.{
  ℕ, Bool, true, false, not, ◌&&◌, ◌||◌, [], ◌∷◌, map, Option, none, some, refl, arith, ◌==◌,
  foreach, is_some, null,
}
use firewall.Common.CString.{CString, codes}
use firewall.Options.Family
use firewall.Options.Table
use firewall.Options.Types.{Address, Device, Zone}
use firewall.Options.Types.Config.{CtHelper, State}
use firewall.Utils.Flags.{is_family}
use firewall.Iptables.{Handle}
use firewall.Iptables.Silent.{
  Silent, Silent-nil, Silent-append, Silent-if, Silent-map, Silent-concat_map,
}
use firewall.Helpers.Print.{print_cthelpers, expand_helper_rule}
use firewall.Zones.Verdicts.{log_rules, src_rules, dest_rules, verdict_rules}
use firewall.Zones.Rules.{
  entry_rules, nat_rules, mtu_rules, raw_rules, print_interface_rule, interface_rules,
  print_interface_rules,
}
use firewall.Zones.Rules.Jumps.{
  filter_rules, policy_jumps, accept_dnat, masq_calls, masq_rules, addrs_of, postrouting_rule,
  table_rules, print_zone_rule, print_zone_rules,
}
use firewall.Rules.Print.{addr_is_family}

Silent-cthelpers :
    (h : Handle) (loaded : CtHelper → Bool) (s : State) (z : Zone)
    → Silent (print_cthelpers h loaded s z)
unfolding print_cthelpers expand_helper_rule
Silent-cthelpers h loaded s z =
    Silent-if (not (h.table == Table.raw) || not (is_family z.family h.family)) _ _ Silent-nil (
      Silent-if (null z.cthelpers) _ _
        (Silent-if (z.masq || not z.auto_helper) _ _ Silent-nil
          (Silent-concat_map _ _ (λ c. Silent-map _ _ (λ p. record { nothing = refl }))))
        (Silent-concat_map _ _ (λ c. Silent-map _ _ (λ p. record { nothing = refl }))))

Silent-filter_rules : (h : Handle) (z : Zone) → Silent (filter_rules h z)
unfolding filter_rules policy_jumps accept_dnat
Silent-filter_rules h z = record { nothing = ground arith }

Silent-postrouting :
    (z : Zone) (verdict : CString) (s d : Option Address)
    → Silent (postrouting_rule z verdict s d ∷ [])
unfolding postrouting_rule
Silent-postrouting z verdict s d = record { nothing = refl }

Silent-masq_calls : (family : ℕ) (z : Zone) → Silent (masq_calls family z)
unfolding masq_calls
Silent-masq_calls family z =
    Silent-append _ _
      (Silent-map
        (λ (a : Address).
          postrouting_rule z (codes "RETURN") (some (record a { invert = false })) none)
        (addrs_of family true z.masq_src) (λ a. Silent-postrouting z _ _ _))
      (Silent-append _ _
        (Silent-map
          (λ (a : Address).
            postrouting_rule z (codes "RETURN") none (some (record a { invert = false })))
          (addrs_of family true z.masq_dest) (λ a. Silent-postrouting z _ _ _))
        (Silent-concat_map
          (λ (src : Option Address).
            map (postrouting_rule z (codes "MASQUERADE") src)
              (foreach (addrs_of family false z.masq_dest)))
          (foreach (addrs_of family false z.masq_src))
          (λ src.
            Silent-map (postrouting_rule z (codes "MASQUERADE") src)
              (foreach (addrs_of family false z.masq_dest)) (λ d. Silent-postrouting z _ _ _))))

Silent-masq_rules : (family : ℕ) (z : Zone) → Silent (masq_rules family z)
unfolding masq_rules
Silent-masq_rules family z =
    Silent-if (z.masq && family == Family.v4) _ _ (Silent-masq_calls family z) Silent-nil

Silent-table_rules :
    (loaded : CtHelper → Bool) (h : Handle) (s : State) (z : Zone)
    → Silent (table_rules loaded h s z)
unfolding table_rules
Silent-table_rules loaded h s z =
    Silent-if (h.table == Table.filter) _ _ (Silent-filter_rules h z) (
      Silent-if (h.table == Table.nat) _ _ (Silent-masq_rules h.family z)
        (Silent-if (h.table == Table.raw) _ _ (Silent-cthelpers h loaded s z) Silent-nil))

module _ (h : Handle) (s : State) (z : Zone) (dev : Option Device) (sub : Option Address) where
  Silent-log : (t : ℕ) → Silent (log_rules h z dev sub t)
  unfolding log_rules
  Silent-log t = record { nothing = ground arith }

  Silent-src : (t : ℕ) → Silent (src_rules h s z dev sub t)
  unfolding src_rules
  Silent-src t = record { nothing = ground arith }

  Silent-dest : (t : ℕ) → Silent (dest_rules h z dev sub t)
  unfolding dest_rules
  Silent-dest t = record { nothing = ground arith }

  Silent-verdict : Silent (verdict_rules h s z dev sub)
  unfolding verdict_rules
  Silent-verdict =
      Silent-concat_map _ _
        (λ t. Silent-append _ _ (Silent-log t) (Silent-append _ _ (Silent-src t) (Silent-dest t)))

  Silent-entry : Silent (entry_rules z dev sub)
  unfolding entry_rules
  Silent-entry = record { nothing = refl }

  Silent-nat : Silent (nat_rules h z dev sub)
  unfolding nat_rules
  Silent-nat = record { nothing = ground arith }

  Silent-mtu : Silent (mtu_rules z dev sub)
  unfolding mtu_rules
  Silent-mtu = record { nothing = ground arith }

  Silent-raw : (loopback : CString → Bool) → Silent (raw_rules loopback h z dev sub)
  unfolding raw_rules
  Silent-raw loopback = record { nothing = ground arith }

  Silent-interface_rule :
      (loopback : CString → Bool) → Silent (print_interface_rule loopback h s z dev sub)
  unfolding print_interface_rule
  Silent-interface_rule loopback =
      Silent-if (h.table == Table.filter) _ _ (Silent-append _ _ Silent-verdict Silent-entry) (
        Silent-if (h.table == Table.nat) _ _ Silent-nat (
          Silent-if (h.table == Table.mangle) _ _ Silent-mtu
            (Silent-if (h.table == Table.raw) _ _ (Silent-raw loopback) Silent-nil)))

  Silent-interface : (loopback : CString → Bool) → Silent (interface_rules loopback h s z dev sub)
  unfolding interface_rules
  Silent-interface loopback = Silent-if (not (addr_is_family sub h.family)) _ _ Silent-nil (
      Silent-if
        (not (is_some dev)
          && not (is_some sub)
          && not (is_some z.extra_src)
          && not (is_some z.extra_dest))
        _ _ Silent-nil (Silent-interface_rule loopback))

pub Silent-zone_rules :
    (loaded : CtHelper → Bool) (loopback : CString → Bool) (h : Handle) (s : State)
    → Silent (print_zone_rules loaded loopback h s)
unfolding print_zone_rules print_zone_rule print_interface_rules
Silent-zone_rules loaded loopback h s = Silent-concat_map _ _ (λ z.
    Silent-if (not (is_family z.family h.family)) _ _ Silent-nil (
      Silent-append _ _ (Silent-table_rules loaded h s z) (
        Silent-concat_map _ _
          (λ dev. Silent-concat_map _ _ (λ sub. Silent-interface h s z dev sub loopback)))))
