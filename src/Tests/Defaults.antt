-- ===== src/Tests/Defaults.antt =====
-- The results on the defaults at concrete inputs.
use firewall.Common.{true, false, [], ◌∷◌, ◌≡◌, refl, arith, inl, inr}
use firewall.Common.CString.{codes}
use firewall.Options.Flag
use firewall.Options.Table
use firewall.Defaults.Check.{IsChecked, load_defaults, load_defaults-IsChecked, preset}
use firewall.Defaults.Chains.{print_default_chains, flush_rules}
use firewall.Defaults.Chains.Pairing.{print-flush_rules}
use firewall.Iptables.{Handle}
use firewall.Iptables.Chains.{for_each, created, deletions}
use firewall.Defaults.Rules.{print_default_tail_rules}
use firewall.Defaults.Rules.Verdicts.{Decides, defaults-Decides}
use firewall.Tests.Sample.{no_defaults}

load_defaults-IsChecked_example : IsChecked false (load_defaults false ((λ d. d) ∷ []) no_defaults)
unfolding preset
load_defaults-IsChecked_example =
    load_defaults-IsChecked false (λ d. d) [] no_defaults (inr (omega arith)) (inr (omega arith))
      (inr (omega arith))

defaults-Decides_example :
    Decides
      (print_default_chains (record { family = 4; table = Table.filter }) false no_defaults).1
      (print_default_tail_rules (record { family = 4; table = Table.filter }) no_defaults)
      (codes "INPUT")
      Flag.reject
    × Decides
        (print_default_chains (record { family = 4; table = Table.filter }) false no_defaults).1
        (print_default_tail_rules (record { family = 4; table = Table.filter }) no_defaults)
        (codes "OUTPUT")
        Flag.accept
    × Decides
        (print_default_chains (record { family = 4; table = Table.filter }) false no_defaults).1
        (print_default_tail_rules (record { family = 4; table = Table.filter }) no_defaults)
        (codes "FORWARD")
        Flag.drop
defaults-Decides_example =
    defaults-Decides 4 false no_defaults refl (inr (inl refl)) (inl refl) (inr (inr refl))

abbrev nat4 : Handle
nat4 = record { family = 4; table = Table.nat }

print-flush_rules_example :
    deletions (flush_rules nat4 true (print_default_chains nat4 false no_defaults).0).1
    ≡ for_each true (created (print_default_chains nat4 false no_defaults).1)
print-flush_rules_example = print-flush_rules nat4 false true no_defaults (omega arith) refl
