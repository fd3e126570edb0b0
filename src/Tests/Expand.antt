-- ===== src/Tests/Expand.antt =====
-- The results on the expansion of rules at concrete inputs.
use firewall.Common.{true, [], some, ◌≡◌, refl, arith, length, concat_map, foreach}
use firewall.Options.Table
use firewall.Options.Types.Config.{Rule}
use firewall.Iptables.{Handle}
use firewall.Utils.Flags.{is_family}
use firewall.Rules.Check.{tcpudp}
use firewall.Rules.Expand.{expand_rule}
use firewall.Rules.Expand.Place.{expand_rule-elsewhere}
use firewall.Tests.Sample.{drop_lan, two_zones}

-- The rule that drops what comes from `lan`, for two protocols.
abbrev dropped : Rule
dropped = record drop_lan { src_zone = some 0; proto = tcpudp }

abbrev filter4 : Handle
filter4 = record { family = 4; table = Table.filter }

abbrev raw4 : Handle
raw4 = record { family = 4; table = Table.raw }

expand_rule-dropped : length (expand_rule filter4 (λ s. true) two_zones dropped 0).1 ≡ 2
unfolding expand_rule firewall.Rules.Print.print_rule firewall.Helpers.check_proto is_family
    concat_map foreach
expand_rule-dropped = refl

expand_rule-elsewhere_example : expand_rule raw4 (λ s. true) two_zones dropped 0 ≡ (two_zones, [])
expand_rule-elsewhere_example =
    expand_rule-elsewhere raw4 (λ s. true) two_zones dropped 0 (omega arith) (omega arith) refl
