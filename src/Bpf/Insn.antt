-- ===== src/Bpf/Insn.antt =====
-- cbpf-rs/src/lib.rs: instructions, and the patterns of the match in `filter_slice`, in its order.
use zpr_utils.Base.{ℕ, bit_or, Option, none, some, List, [], ◌∷◌, ◌==◌, if◌then◌else◌}
use zpr_utils.Bpf.Code.{
  alu, jmp, ld, ldx, misc, misc_tax, misc_txa, mode_abs, mode_imm, mode_ind, mode_len, mode_mem,
  mode_msh, op_add, op_and, op_div, op_ja, op_jeq, op_jge, op_jgt, op_jset, op_lsh, op_mod, op_mul,
  op_neg, op_or, op_rsh, op_sub, op_xor, ret, rval_a, size_b, size_h, size_w, src_k, src_x, st, stx,
}

pub record BpfInsn : Type 0 where
  pub code : ℕ
  pub jt : ℕ
  pub jf : ℕ
  pub k : ℕ

-- The fields have the widths u16, u8, u8 and u32.
abbrev pub stmt : ℕ → ℕ → BpfInsn
stmt code k = record { code = code; jt = 0; jf = 0; k = k }

abbrev pub jump : ℕ → ℕ → ℕ → ℕ → BpfInsn
jump code k jt jf = record { code = code; jt = jt; jf = jf; k = k }

-- One constructor for each arm of the match.
pub data Arm : Type 0 where
  ret_k ret_a ld_w_abs ld_h_abs ld_b_abs ld_len ldx_len ld_w_ind ld_h_ind ld_b_ind : Arm
  ldx_msh ld_imm ldx_imm ld_mem ldx_mem st_mem stx_mem ja jgt_k jge_k jeq_k jset_k : Arm
  jgt_x jge_x jeq_x jset_x add_x sub_x mul_x div_x mod_x and_x or_x xor_x lsh_x rsh_x : Arm
  add_k sub_k mul_k div_k mod_k and_k or_k xor_k lsh_k rsh_k neg tax txa : Arm

-- The patterns, `u16pat!(…)`, with the arm that each selects.
abbrev pub patterns : List (ℕ × Arm)
patterns =
    (bit_or ret src_k, ret_k)
    ∷ (bit_or ret rval_a, ret_a)
    ∷ (bit_or (bit_or ld size_w) mode_abs, ld_w_abs)
    ∷ (bit_or (bit_or ld size_h) mode_abs, ld_h_abs)
    ∷ (bit_or (bit_or ld size_b) mode_abs, ld_b_abs)
    ∷ (bit_or (bit_or ld size_w) mode_len, ld_len)
    ∷ (bit_or (bit_or ldx size_w) mode_len, ldx_len)
    ∷ (bit_or (bit_or ld size_w) mode_ind, ld_w_ind)
    ∷ (bit_or (bit_or ld size_h) mode_ind, ld_h_ind)
    ∷ (bit_or (bit_or ld size_b) mode_ind, ld_b_ind)
    ∷ (bit_or (bit_or ldx size_b) mode_msh, ldx_msh)
    ∷ (bit_or ld mode_imm, ld_imm)
    ∷ (bit_or ldx mode_imm, ldx_imm)
    ∷ (bit_or ld mode_mem, ld_mem)
    ∷ (bit_or ldx mode_mem, ldx_mem)
    ∷ (bit_or st mode_mem, st_mem)
    ∷ (bit_or stx mode_mem, stx_mem)
    ∷ (bit_or jmp op_ja, ja)
    ∷ (bit_or (bit_or jmp op_jgt) src_k, jgt_k)
    ∷ (bit_or (bit_or jmp op_jge) src_k, jge_k)
    ∷ (bit_or (bit_or jmp op_jeq) src_k, jeq_k)
    ∷ (bit_or (bit_or jmp op_jset) src_k, jset_k)
    ∷ (bit_or (bit_or jmp op_jgt) src_x, jgt_x)
    ∷ (bit_or (bit_or jmp op_jge) src_x, jge_x)
    ∷ (bit_or (bit_or jmp op_jeq) src_x, jeq_x)
    ∷ (bit_or (bit_or jmp op_jset) src_x, jset_x)
    ∷ (bit_or (bit_or alu op_add) src_x, add_x)
    ∷ (bit_or (bit_or alu op_sub) src_x, sub_x)
    ∷ (bit_or (bit_or alu op_mul) src_x, mul_x)
    ∷ (bit_or (bit_or alu op_div) src_x, div_x)
    ∷ (bit_or (bit_or alu op_mod) src_x, mod_x)
    ∷ (bit_or (bit_or alu op_and) src_x, and_x)
    ∷ (bit_or (bit_or alu op_or) src_x, or_x)
    ∷ (bit_or (bit_or alu op_xor) src_x, xor_x)
    ∷ (bit_or (bit_or alu op_lsh) src_x, lsh_x)
    ∷ (bit_or (bit_or alu op_rsh) src_x, rsh_x)
    ∷ (bit_or (bit_or alu op_add) src_k, add_k)
    ∷ (bit_or (bit_or alu op_sub) src_k, sub_k)
    ∷ (bit_or (bit_or alu op_mul) src_k, mul_k)
    ∷ (bit_or (bit_or alu op_div) src_k, div_k)
    ∷ (bit_or (bit_or alu op_mod) src_k, mod_k)
    ∷ (bit_or (bit_or alu op_and) src_k, and_k)
    ∷ (bit_or (bit_or alu op_or) src_k, or_k)
    ∷ (bit_or (bit_or alu op_xor) src_k, xor_k)
    ∷ (bit_or (bit_or alu op_lsh) src_k, lsh_k)
    ∷ (bit_or (bit_or alu op_rsh) src_k, rsh_k)
    ∷ (bit_or alu op_neg, neg)
    ∷ (bit_or misc misc_tax, tax)
    ∷ (bit_or misc misc_txa, txa)
    ∷ []

abbrev pub select : ℕ → List (ℕ × Arm) → Option Arm
select code [] = none
select code ((pattern_code, arm) ∷ rest) =
    if code == pattern_code then some arm else select code rest

-- `match insn.code`; `none` is the last arm, `unreachable_unchecked`.
unfoldable pub decode : ℕ → Option Arm
decode code = select code patterns
