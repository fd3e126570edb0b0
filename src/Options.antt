-- ===== src/Options.antt =====
-- options.h and options.c: the configuration's data model and its value parsers.
pub mod Table
pub mod Family
pub mod Flag
pub mod RejectCode
pub mod LimitUnit
pub mod IpsetMethod
pub mod IpsetType
pub mod Types
pub mod Address
pub mod Names
pub mod Parse
