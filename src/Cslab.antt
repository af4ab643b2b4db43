-- ===== src/Cslab.antt =====
-- cslab: the concurrent slab.
pub mod Storage
pub mod Slab
pub mod Bitmap
pub mod Model
pub mod Represents
pub mod Refines
pub mod Iter
pub mod Reader
pub mod Rcu
mod Examples
