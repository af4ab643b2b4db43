-- ===== src/NetDefs.antt =====
-- zpr-utils: network definitions.
pub mod Address
pub mod Conversions
pub mod Scoped
pub mod Froms
pub mod Display
pub mod Socket
pub mod Packet
pub mod Checksums
mod Examples
