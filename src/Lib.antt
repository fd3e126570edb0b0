-- ===== src/Lib.antt =====
-- A model of firewall3, the firewall of OpenWrt, and what is proved of it.
--
-- The program reads a configuration of defaults, zones, rules, redirects, source NAT sections, forwards
-- and sets of addresses, resolves the names by which the sections refer to each other, and emits calls
-- that build the chains and rules of the netfilter tables, family by family and table by table. A zone's
-- flag words remember which chains are needed: a section that is loaded sets the bit of the chain to
-- which it will jump, the printing of the zone creates the chains whose bits are set, and the flush
-- asks for their deletion. The commands start, reload and stop do so for the state of the configuration and for
-- the state of what runs.
--
--   Common: the library's names passed on, Boolean tests, lists over native numbers, flag bits by the
--     native bit operations, C strings as lists of bytes, numbers as text.
--   Options: options.h and options.c. Table, Family, Flag, RejectCode, LimitUnit, IpsetMethod and
--     IpsetType are the enumerations, Types and Types/Config the structures, Names the name tables,
--     Address is fw3_address_to_string, Parse the value parsers for enumerations, words, times, marks,
--     DSCP, set matches, days and ports.
--   Utils: utils.h and utils.c. Flags has the macros set, del and has; Netmask has
--     fw3_netmask2bitlen and fw3_bitlen2netmask; Loopback is fw3_check_loopback_addr.
--   Iptables: iptables.h. A call on a table or on a rule is a value, and what a handler does is the
--     list of its calls; Chains has the tests on the chain tables and what a list does to chains,
--     Silent the lists that do nothing to chains.
--   Ubus: ubus.c, what the dump of the interfaces says of a network.
--   Sections: the loop over sections, and what the loaders of redirects and source NAT share.
--   Defaults: defaults.c. Check is fw3_load_defaults, Chains has the built-in chains and the flushes,
--     Rules the head and tail rules.
--   Zones: zones.c. ChainNames is the table zone_chains and format_chain, Chains is print_zone_chain
--     and fw3_flush_zones, Lookup is fw3_lookup_zone and the writes through a pointer to a zone, Grows
--     says that zones keep their bits. Load is fw3_load_zones, Verdicts and Rules are
--     print_interface_rules, Rules/Jumps is fw3_print_zone_rules, fw3_hotplug_zones and
--     fw3_resolve_zone_addresses.
--   Helpers: helpers.c, its checks and look-ups; Load is fw3_load_cthelpers, Print is
--     fw3_print_cthelpers.
--   Rules: rules.c. Check is check_rule, Load is fw3_load_rules, Print is append_chain, set_target and
--     print_rule, Expand is expand_rule and fw3_print_rules. Expand/Place and Expand/Stands say to which
--     table and chain a rule goes.
--   Redirects: redirects.c, its checks and fw3_load_redirects; Print is print_redirect, Expand is
--     print_reflection, expand_redirect and fw3_print_redirects.
--   Snats: snats.c, its checks and fw3_load_snats; Print is fw3_print_snats.
--   Forwards: forwards.c. Check is check_forward and fw3_load_forwards, Print is fw3_print_forwards.
--   Ipsets: ipsets.c. Check is check_types, check_ipset and fw3_load_ipsets, Commands is
--     fw3_create_ipsets, Reload is fw3_ipsets_update_run_state and fw3_destroy_ipsets.
--   Includes: includes.c, which files and scripts are run, in which order.
--   Main: main.c. Build is build_state, Tables is what is done to one open table, Commands is start
--     and stop, Installed and Started say what start leaves, Reload is reload and gc, Lookup is
--     lookup_network, lookup_device and lookup_zone.
--   Tests: small configurations, and each result applied to one.
--
-- A pointer to a zone, a set or a helper is its index in the state's list, so that two rules that name
-- one zone share it. A section is the structure that the option parsers have filled in, with whether
-- they succeeded. A check that fails is none, and leaves the state as it was. The state that runs and
-- the state of the configuration are a pair, and what a command does to the system is a list in its
-- order. Numbers are natural; a buffer's size is written out where a text is cut to it. The text of a
-- number is made on fuel: a number has at most as many digits as its value and one more, which is the
-- fuel given. The loops over a mask and over the datatypes of a set end after the bound that the source
-- gives them.
--
-- The C library's inet_ntop, inet_pton, getprotobyname and strtoul with base 0, the width of
-- unsigned long, the lines of a file, the dump of the interfaces, the kernel's answers whether a
-- set exists, a module is loaded, a device is the loopback and a table can be opened, and whether
-- a command could be started are parameters. In Main they are the record Env, whose answers do not
-- change while a command runs; its addresses of a zone are those of fw3_resolve_zone_addresses
-- over one dump.
--
-- A comment that is given to a rule is taken as a text: the conversions that vsnprintf would read in a
-- section's name are not modelled.
--
-- Not modelled are the other value parsers of options.c, the implementation in iptables.c over
-- libiptc, the state file, fw3_set_defaults and fw3_flush_conntrack, which write to /proc and are
-- effects of a command without a result, fw3_ubus_connect and fw3_ubus_rules, the command line and the
-- locks of main, the frees, and what is written to the log.
pub mod Common
pub mod Options
pub mod Utils
pub mod Iptables
pub mod Ubus
pub mod Defaults
pub mod Zones
pub mod Helpers
pub mod Rules
pub mod Forwards
pub mod Sections
pub mod Snats
pub mod Redirects
pub mod Includes
pub mod Main
pub mod Ipsets
pub mod Tests
