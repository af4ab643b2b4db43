-- ===== src/Bpf.antt =====
-- cbpf-rs: the classic BPF virtual machine and its validator.
pub mod Code
pub mod Insn
pub mod Words
pub mod Loads
pub mod Vm
pub mod Validate
pub mod Accepted
pub mod Safety
pub mod Interface
mod Examples
