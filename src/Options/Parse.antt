-- ===== src/Options/Parse.antt =====
-- The value parsers of options.c. A parser that returns false is none; the value that it writes
-- through its pointer, or appends to its list, is its result.
pub mod Enum
pub mod Words
pub mod Time
pub mod Days
pub mod Port
pub mod Match
