-- ===== src/Fs.antt =====
-- Kernel/Source/Fs: files.
pub mod FdTable
