-- ===== src/Rules.antt =====
-- rules.c: the check of a rule section, and the target and chain of the rule that it prints.
pub mod Check
pub mod Print
pub mod Load
pub mod Expand
