-- ===== src/Defaults.antt =====
-- defaults.c: the check of the defaults, the built-in chains, and their rules.
pub mod Check
pub mod Chains
pub mod Rules
