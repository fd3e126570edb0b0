-- ===== src/Ipsets.antt =====
-- ipsets.c: the sets of addresses. `Check`: the checks of a section. `Supported`: what an accepted set
-- satisfies. `Commands`: the text for the ipset program. `Reload`: which sets a reload destroys.
pub mod Check
pub mod Supported
pub mod Commands
pub mod Reload
