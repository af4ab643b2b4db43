-- ===== src/Bpf/Safety/Arms.antt =====
-- Each arm, on operands that fit it, keeps the machine within the program and its memory.
use zpr_utils.Base.{
  ℕ, ◌+◌, ◌≤◌, ◌<◌, ◌≡◌, ◌⊎◌, bit_and, List, arith, length, get_elem?-of_lt, length-set,
}
use zpr_utils.Bpf.Insn.{
  BpfInsn, Arm, ret_k, ret_a, ld_w_abs, ld_w_ind, ld_h_abs, ld_h_ind, ld_b_abs, ld_b_ind, ldx_msh,
  ld_mem, ldx_mem, st_mem, stx_mem,
}
use zpr_utils.Bpf.Words.{wrapping_add}
use zpr_utils.Bpf.Loads.{load_byte-some, load_halfword-some, load_word-some}
use zpr_utils.Bpf.Validate.{validate_allow_backward_jumps, u32_max}
use zpr_utils.Bpf.Vm.{Machine, Outcome, returned, continue, fault, exec, do_jmp, memwords}
use zpr_utils.Bpf.Accepted.{Fits}

abbrev pub NoBackwardJumps : ℕ → Type 0
NoBackwardJumps flags = bit_and flags validate_allow_backward_jumps ≡ 0

-- No undefined behaviour; a machine that goes on is within the program, and not before `low` if
-- backward jumps are refused.
abbrev pub Keeps : ℕ → ℕ → ℕ → Outcome → Type 0
Keeps n flags low (returned v) = Unit
Keeps n flags low (continue s) =
    (s.pc < n) × (length s.mem ≡ memwords) × (NoBackwardJumps flags → low ≤ s.pc)
Keeps n flags low fault = ⊥

abbrev pub IsReturn : Arm → Type 0
IsReturn ret_k = Unit
IsReturn ret_a = Unit
IsReturn _ = ⊥

module _ (n flags i : ℕ) (insn : BpfInsn) (packet : List ℕ) (s : Machine) (short : n ≤ u32_max)
    (pc : s.pc ≡ i + 1) (mem : length s.mem ≡ memwords) where
  pub exec-Keeps :
      (arm : Arm)
      → Fits n flags i arm insn
      → (i + 1 < n) ⊎ IsReturn arm
      → Keeps n flags (i + 1) (exec arm insn packet s)
  unfolding exec do_jmp
  exec-Keeps ret_k fits more = tt
  exec-Keeps ld_w_abs fits more = ground (arith, load_word-some packet insn.k)
  exec-Keeps ld_h_abs fits more = ground (arith, load_halfword-some packet insn.k)
  exec-Keeps ld_b_abs fits more = ground (arith, load_byte-some packet insn.k)
  exec-Keeps ld_w_ind fits more = ground (arith, load_word-some packet (wrapping_add s.x insn.k))
  exec-Keeps ld_h_ind fits more =
      ground (arith, load_halfword-some packet (wrapping_add s.x insn.k))
  exec-Keeps ld_b_ind fits more = ground (arith, load_byte-some packet (wrapping_add s.x insn.k))
  exec-Keeps ldx_msh fits more = ground (arith, load_byte-some packet insn.k)
  exec-Keeps ld_mem fits more = ground (arith, get_elem?-of_lt s.mem insn.k)
  exec-Keeps ldx_mem fits more = ground (arith, get_elem?-of_lt s.mem insn.k)
  exec-Keeps st_mem fits more = ground (arith, length-set s.mem insn.k s.a)
  exec-Keeps stx_mem fits more = ground (arith, length-set s.mem insn.k s.x)
  exec-Keeps _ fits more = ground arith
