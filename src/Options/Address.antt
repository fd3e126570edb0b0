-- ===== src/Options/Address.antt =====
-- `fw3_address_to_string` of options.c. `inet_ntop`, which is the C library's, is a parameter: the
-- text of an address. The static buffer of `INET6_ADDRSTRLEN * 2 + 2` bytes holds the sign and both
-- texts, since `inet_ntop` writes at most `INET6_ADDRSTRLEN` bytes.
use firewall.Common.{Bool, ◌&&◌, [], ◌++◌, if◌then◌else◌}
use firewall.Common.CString.{CString, codes}
use firewall.Common.Number.{print_decimal}
use firewall.Options.Types.{InetAddr, Address}
use firewall.Utils.Netmask.{netmask2bitlen}

unfoldable pub address_to_string : (InetAddr → CString) → Address → Bool → Bool → CString
address_to_string inet_ntop address allow_invert as_cidr =
    (if address.invert && allow_invert then codes "!" else [])
    ++ (inet_ntop address.address
        ++ (if address.range
            then codes "-" ++ inet_ntop address.mask
            else if as_cidr
            then codes "/" ++ print_decimal (netmask2bitlen address.mask)
            else codes "/" ++ inet_ntop address.mask))
