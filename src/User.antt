-- ===== src/User.antt =====
-- app/libuos: the library of user programs.
pub mod Numbers
pub mod Strings
