-- ===== src/Cslab/Refines.antt =====
-- The slab in memory implements the model.
mod Chains
pub mod Counts
pub mod Slots
pub mod Create
pub mod Insert
pub mod Mark
pub mod Finalize
pub mod Lookup
pub mod Vacant
