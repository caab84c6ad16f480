-- ===== src/Header.antt =====
-- The header word of a command: refsiEncodeCMPCommand and refsiDecodeCMPCommand of
-- driver/source/refsidrv/refsidrv.cpp.
mod Fields
pub mod Laws
unfoldable pub use Fields.*
