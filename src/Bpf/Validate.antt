-- ===== src/Bpf/Validate.antt =====
-- cbpf-rs/src/lib.rs: `BpfError`, `BpfProgram::do_validate` and the public `validate` functions.
use zpr_utils.Base.{
  ℕ, ◌+◌, ◌-◌, ◌^◌, bit_and, Bool, false, not, ◌&&◌, ◌||◌, none, some, List, [], ◌∷◌, ltb, leb,
  ◌==◌, if◌then◌else◌, length, get_last?, Result, ok, err, ◌>>◌,
}
use zpr_utils.Bpf.Code.{
  code_class, ld, ldx, st, stx, alu, jmp, ret, misc, code_size, size_w, size_b, valid_code_size,
  code_mode, mode_imm, mode_abs, mode_ind, mode_mem, mode_len, mode_msh, code_op, op_add, op_sub,
  op_mul, op_div, op_or, op_and, op_lsh, op_rsh, op_neg, op_mod, op_xor, op_ja, op_jeq, op_jgt,
  op_jge, op_jset, code_src, src_k, code_rval, rval_a, code_miscop, misc_tax, misc_txa,
}
use zpr_utils.Bpf.Insn.{BpfInsn}
use zpr_utils.Bpf.Words.{as_u32, wrapping_add}
use zpr_utils.Bpf.Vm.{BpfProgram, memwords}

pub data BpfError : Type 0 where
  program_too_large missing_return invalid_instruction : BpfError
  bad_jump_target bad_memory_access divide_by_zero : BpfError

abbrev pub Check : Type 0
Check = Result BpfError (Unit {0})

abbrev pub validate_allow_backward_jumps : ℕ
validate_allow_backward_jumps = 1

abbrev pub u32_max : ℕ
u32_max = 2 ^ 32 - 1

-- `if bad { return Err(e) }`.
abbrev pub refuse_if : Bool → BpfError → Check
refuse_if bad e = if bad then err e else ok tt

abbrev check_mem : BpfInsn → Check
check_mem insn = refuse_if (leb memwords insn.k) bad_memory_access

abbrev check_size : ℕ → BpfInsn → Check
check_size size insn = refuse_if (not (code_size insn.code == size)) invalid_instruction

unfoldable pub check_ld : BpfInsn → Check
check_ld insn =
    let mode = code_mode insn.code in
    if mode == mode_imm || mode == mode_len
    then check_size size_w insn
    else if mode == mode_abs || mode == mode_ind
    then refuse_if (not (valid_code_size (code_size insn.code))) invalid_instruction
    else if mode == mode_mem
    then (check_size size_w insn >> check_mem insn)
    else err invalid_instruction

unfoldable pub check_ldx : BpfInsn → Check
check_ldx insn =
    let mode = code_mode insn.code in
    if mode == mode_imm || mode == mode_len
    then check_size size_w insn
    else if mode == mode_msh
    then check_size size_b insn
    else if mode == mode_mem
    then (check_size size_w insn >> check_mem insn)
    else err invalid_instruction

unfoldable pub check_st : BpfInsn → Check
check_st insn =
    refuse_if (not (code_mode insn.code == mode_mem) || not (code_size insn.code == size_w))
      invalid_instruction
    >> check_mem insn

unfoldable pub check_alu : BpfInsn → Check
check_alu insn =
    let op = code_op insn.code in
    if op == op_add
      || op == op_sub
      || op == op_mul
      || op == op_or
      || op == op_and
      || op == op_xor
      || op == op_lsh
      || op == op_rsh
    then ok tt
    else if op == op_neg
    then refuse_if (not (code_src insn.code == 0)) invalid_instruction
    else if op == op_div || op == op_mod
    then refuse_if (code_src insn.code == src_k && insn.k == 0) divide_by_zero
    else err invalid_instruction

-- `n` is the number of instructions as a u32, `i` the instruction's index.
unfoldable pub check_jmp : ℕ → ℕ → ℕ → BpfInsn → Check
check_jmp n flags i insn =
    let from = i + 1 in
    let op = code_op insn.code in
    if op == op_ja
    then (refuse_if (not (code_src insn.code == 0)) invalid_instruction
        >> (if not (bit_and flags validate_allow_backward_jumps == 0)
            then refuse_if (leb n (wrapping_add from insn.k)) bad_jump_target
            else refuse_if (leb (n - from) insn.k) bad_jump_target))
    else if op == op_jeq || op == op_jgt || op == op_jge || op == op_jset
    then refuse_if (leb (n - from) insn.jt || leb (n - from) insn.jf) bad_jump_target
    else err invalid_instruction

unfoldable pub check_ret : BpfInsn → Check
check_ret insn =
    (if code_rval insn.code == rval_a || code_rval insn.code == src_k
      then ok tt
      else err invalid_instruction)
    >> refuse_if (not (bit_and insn.code 0xe0 == 0)) invalid_instruction

unfoldable pub check_misc : BpfInsn → Check
check_misc insn =
    if code_miscop insn.code == misc_tax || code_miscop insn.code == misc_txa
    then ok tt
    else err invalid_instruction

-- The body of the loop for one instruction.
unfoldable pub check_insn : ℕ → ℕ → ℕ → BpfInsn → Check
unfolding check_ld check_ldx check_st check_alu check_jmp check_ret check_misc
check_insn n flags i insn =
    let class = code_class insn.code in
    refuse_if (not (bit_and insn.code 0xff00 == 0)) invalid_instruction
    >> (if class == ld
        then check_ld insn
        else if class == ldx
        then check_ldx insn
        else if class == st || class == stx
        then check_st insn
        else if class == alu
        then check_alu insn
        else if class == jmp
        then check_jmp n flags i insn
        else if class == ret
        then check_ret insn
        else if class == misc
        then check_misc insn
        else err invalid_instruction)

-- The loop over `i`, on the instructions from index `i` on.
unfoldable pub check_from : ℕ → ℕ → ℕ → List BpfInsn → Check
check_from n flags i [] = ok tt
check_from n flags i (insn ∷ rest) = check_insn n flags i insn >> check_from n flags (i + 1) rest

unfoldable pub ends_in_ret : List BpfInsn → Bool
ends_in_ret insns = elim (get_last? insns) [
  | none ↦ false
  | some insn ↦ code_class insn.code == ret
]

unfoldable pub do_validate : List BpfInsn → ℕ → Check
do_validate insns flags =
    if ltb u32_max (length insns)
    then err program_too_large
    else (check_from (as_u32 (length insns)) flags 0 insns
        >> refuse_if (not (ends_in_ret insns)) missing_return)

unfoldable pub validate_with_flags : List BpfInsn → ℕ → Result BpfError BpfProgram
validate_with_flags insns flags = do_validate insns flags >> ok (record { insns = insns })

unfoldable pub validate : List BpfInsn → Result BpfError BpfProgram
validate insns = validate_with_flags insns 0
