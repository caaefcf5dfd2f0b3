-- ===== src/Web.antt =====
-- apps/rc-web/src/lib: the console's stream decoder and pointer.
pub mod Decode
pub mod Pointer
