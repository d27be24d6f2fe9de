-- ===== src/Util.antt =====
-- src/util.cpp: escaping, the byte check and table lookup.
pub mod Escape
pub mod Valid
pub mod Lookup
pub mod Replace
pub mod Numbers
pub mod Tests
