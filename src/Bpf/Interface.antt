-- ===== src/Bpf/Interface.antt =====
-- cbpf-rs/src/lib.rs: the public functions `validate` and `filter` together.
use zpr_utils.Base.{ℕ, ◌≡◌, refl, sym, ap, ◌∙◌, List, length, ok, >>-eq-ok, arith}
use zpr_utils.Bpf.Insn.{BpfInsn}
use zpr_utils.Bpf.Validate.{do_validate, validate, validate_with_flags}
use zpr_utils.Bpf.Vm.{BpfProgram, filter, returned, filter_slice}
use zpr_utils.Bpf.Accepted.Program.{AreInsns}
use zpr_utils.Bpf.Safety.{filter_slice-returned}

-- On instructions of the declared widths: a program that `validate` made returns a value from
-- `filter` on every packet, within as many rounds as there are instructions.
pub filter-validate :
    (insns : List BpfInsn) (program : BpfProgram) (packet : List ℕ)
    → AreInsns insns
    → validate insns ≡ ok program
    → (r : ℕ) × (filter (length insns) program packet ≡ returned r)
unfolding filter validate validate_with_flags
filter-validate insns program packet widths valid =
    let (checked, made) = >>-eq-ok (do_validate insns 0) (ok (record { insns = insns })) valid in
    let same : insns ≡ program.insns = cc in
    let (r, e) =
      filter_slice-returned insns 0 packet (length insns) widths checked refl (omega arith) in
    (r, ap (λ p. filter_slice (length insns) p packet) (sym same) ∙ e)
