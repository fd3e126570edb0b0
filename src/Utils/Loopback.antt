-- ===== src/Utils/Loopback.antt =====
-- `fw3_check_loopback_addr` of utils.c.
use firewall.Common.{◌/◌, ◌^◌, Bool, false, not, ◌&&◌, ◌||◌, [], ◌∷◌, ◌++◌, ◌==◌, replicate}
use firewall.Common.CString.{streq}
use firewall.Options.Family
use firewall.Options.Types.{Address, InetAddr, in4, in6}
use firewall.Utils.Netmask.{netmask2bitlen}

-- `(ntohl(s_addr) >> IN_CLASSA_NSHIFT) == IN_LOOPBACKNET`.
unfoldable pub in_loopbacknet : InetAddr → Bool
in_loopbacknet (in4 w) = w / 2 ^ 24 == 127
in_loopbacknet (in6 bytes) = false

-- `IN6_IS_ADDR_LOOPBACK`: fifteen zero bytes and a one.
unfoldable pub is_loopback6 : InetAddr → Bool
is_loopback6 (in4 w) = false
is_loopback6 (in6 bytes) = streq bytes (replicate 15 0 ++ 1 ∷ [])

unfoldable pub check_loopback_addr : Address → Bool
unfolding in_loopbacknet is_loopback6
check_loopback_addr addr =
    addr.family == Family.v4 && in_loopbacknet addr.address
    || addr.family == Family.v6
      && not addr.range
      && netmask2bitlen addr.mask == 128
      && is_loopback6 addr.address
