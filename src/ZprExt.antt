-- ===== src/ZprExt.antt =====
-- zpr-ext: its single-threaded cell, its descriptors, descriptors sent along with data, at once or
-- when the socket is ready, and its extensions of buffers, sockets and numbers.
pub mod UsizeCell
pub mod Fd
pub mod Ancillary
pub mod Sending
pub mod Bytes
pub mod Zerocopy
pub mod Net
pub mod Casts
pub mod Retry
mod Examples
