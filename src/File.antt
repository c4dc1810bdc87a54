-- ===== src/File.antt =====
-- kernel/filesystem/instance.cpp and kernel/filesystem/file.cpp: the instances of files and folders that are in use, and paths.
pub mod Instance
pub mod Path
pub mod Request
