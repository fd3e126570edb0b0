-- ===== src/Forwards.antt =====
-- forwards.c: the `forwarding` sections.
pub mod Check
pub mod Served
pub mod Print
pub mod Exists
