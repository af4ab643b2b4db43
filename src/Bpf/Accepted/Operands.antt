-- ===== src/Bpf/Accepted/Operands.antt =====
-- The check of an instruction whose code is an arm's is the test of its operands.
use zpr_utils.Base.{ℕ, ◌≡◌, ok, arith}
use zpr_utils.Bpf.Insn.{BpfInsn, Arm, ret_k}
use zpr_utils.Bpf.Validate.{check_insn}
use zpr_utils.Bpf.Accepted.{encode, Fits}

module _ (n flags i jt jf k : ℕ) where
  abbrev pub insn_of : Arm → BpfInsn
  insn_of arm = record { code = encode arm; jt = jt; jf = jf; k = k }

  pub Fits-check :
      (arm : Arm) → Fits n flags i arm (insn_of arm) → check_insn n flags i (insn_of arm) ≡ ok tt
  unfolding check_insn
  Fits-check ret_k h = ground arith
  Fits-check _ h = ground arith

  pub check-Fits :
      (arm : Arm) → check_insn n flags i (insn_of arm) ≡ ok tt → Fits n flags i arm (insn_of arm)
  unfolding check_insn
  check-Fits ret_k h = ground arith
  check-Fits _ h = ground arith
