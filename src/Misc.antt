-- ===== src/Misc.antt =====
-- lib/misc.c, by function.
pub mod Bools
pub mod Http
pub mod Html
pub mod Wrap
pub mod Md5
