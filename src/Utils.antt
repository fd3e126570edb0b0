-- ===== src/Utils.antt =====
-- utils.h and utils.c: flag words and families, netmasks, loopback addresses.
pub mod Flags
pub mod Netmask
pub mod Loopback
