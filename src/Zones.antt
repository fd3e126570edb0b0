-- ===== src/Zones.antt =====
-- zones.c: the chains and rules of a zone.
pub mod ChainNames
pub mod Chains
pub mod Lookup
pub mod Grows
pub mod Load
pub mod Verdicts
pub mod Rules
