-- ===== src/Tests/Utils.antt =====
-- The round trip of netmasks at one prefix length.
use firewall.Common.{false, none, some, ◌≡◌}
use firewall.Utils.Netmask.{
  length_of, bitlen2netmask_v4, bitlen2netmask_v6, netmask2bitlen-bitlen2netmask,
}

netmask2bitlen-bitlen2netmask_example :
    (length_of (bitlen2netmask_v4 false 48) ≡ none)
    × (length_of (bitlen2netmask_v6 false 48) ≡ some 48)
netmask2bitlen-bitlen2netmask_example = netmask2bitlen-bitlen2netmask 48
