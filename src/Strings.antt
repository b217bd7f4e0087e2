-- ===== src/Strings.antt =====
-- Kernel/Source/Lib/String.c: blocks of memory, and strings.
pub mod Memory
pub mod Text
