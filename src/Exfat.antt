-- ===== src/Exfat.antt =====
-- kernel/filesystem/exfat.cpp, kernel/filesystem/include/exfat.hpp: the exFAT file system.
pub mod Bitmap
pub mod Chain
pub mod Header
pub mod Names
pub mod Reader
