-- ===== src/Bpf/Accepted.antt =====
-- The instruction set that the validator accepts, described arm by arm: the code of each arm, and
-- what its operands must satisfy.
mod Operands
pub mod Sound
pub mod Errors
pub mod First
pub mod Program
use zpr_utils.Base.{
  ℕ, ◌+◌, ◌-◌, ◌<◌, bit_and, ◌==◌, ◌≡◌, ◌≢◌, ◌⊎◌, refl, ap, some, List, [], ◌∷◌, All, ◌∙◌, inl, inr,
  Bool-cases, ==_iff, arith,
}
use zpr_utils.Bpf.Insn.{
  BpfInsn, Arm, patterns, select, decode, ret_k, ret_a, ld_w_abs, ld_h_abs, ld_b_abs, ld_len,
  ldx_len, ld_w_ind, ld_h_ind, ld_b_ind, ldx_msh, ld_imm, ldx_imm, ld_mem, ldx_mem, st_mem, stx_mem,
  ja, jgt_k, jge_k, jeq_k, jset_k, jgt_x, jge_x, jeq_x, jset_x, add_x, sub_x, mul_x, div_x, mod_x,
  and_x, or_x, xor_x, lsh_x, rsh_x, add_k, sub_k, mul_k, div_k, mod_k, and_k, or_k, xor_k, lsh_k,
  rsh_k, neg, tax, txa,
}
use zpr_utils.Bpf.Words.{wrapping_add}
use zpr_utils.Bpf.Validate.{validate_allow_backward_jumps}

-- The code of an arm.
abbrev pub encode : Arm → ℕ
encode ret_k = 0x06
encode ret_a = 0x16
encode ld_w_abs = 0x20
encode ld_h_abs = 0x28
encode ld_b_abs = 0x30
encode ld_len = 0x80
encode ldx_len = 0x81
encode ld_w_ind = 0x40
encode ld_h_ind = 0x48
encode ld_b_ind = 0x50
encode ldx_msh = 0xb1
encode ld_imm = 0x00
encode ldx_imm = 0x01
encode ld_mem = 0x60
encode ldx_mem = 0x61
encode st_mem = 0x62
encode stx_mem = 0x63
encode ja = 0x05
encode jgt_k = 0x25
encode jge_k = 0x35
encode jeq_k = 0x15
encode jset_k = 0x45
encode jgt_x = 0x2d
encode jge_x = 0x3d
encode jeq_x = 0x1d
encode jset_x = 0x4d
encode add_x = 0x0c
encode sub_x = 0x1c
encode mul_x = 0x2c
encode div_x = 0x3c
encode mod_x = 0x9c
encode and_x = 0x5c
encode or_x = 0x4c
encode xor_x = 0xac
encode lsh_x = 0x6c
encode rsh_x = 0x7c
encode add_k = 0x04
encode sub_k = 0x14
encode mul_k = 0x24
encode div_k = 0x34
encode mod_k = 0x94
encode and_k = 0x54
encode or_k = 0x44
encode xor_k = 0xa4
encode lsh_k = 0x64
encode rsh_k = 0x74
encode neg = 0x84
encode tax = 0x07
encode txa = 0x87

pub decode-encode : (arm : Arm) → decode (encode arm) ≡ some arm
unfolding decode
decode-encode ret_k = refl
decode-encode _ = refl

select-inverse :
    (f : Arm → ℕ) (code : ℕ) (arm : Arm) (table : List (ℕ × Arm))
    → All (λ entry. entry.0 ≡ f entry.1) table
    → select code table ≡ some arm
    → code ≡ f arm
select-inverse f code arm [] h e = cc
select-inverse f code arm ((c, a) ∷ table) h e = elim (Bool-cases (code == c)) [
  | inl hit ↦
      let found : some a ≡ some arm = rw hit at e in
      let same : a ≡ arm = cc in (==_iff code c).0 hit ∙ h.0 ∙ ap f same
  | inr miss ↦ select-inverse f code arm table h.1 (rw miss at e)
]

pub encode-decode : (code : ℕ) (arm : Arm) → decode code ≡ some arm → code ≡ encode arm
unfolding decode
encode-decode code arm = select-inverse encode code arm patterns (omega arith)

-- A jump forward by `d` from the instruction after index `i` of `n`.
abbrev pub InReach : ℕ → ℕ → ℕ → Type 0
InReach n i d = d < n - (i + 1)

-- The operands of instruction `i` of `n` fit its arm.
abbrev pub Fits : ℕ → ℕ → ℕ → Arm → BpfInsn → Type 0
Fits n flags i ld_mem insn = insn.k < 16
Fits n flags i ldx_mem insn = insn.k < 16
Fits n flags i st_mem insn = insn.k < 16
Fits n flags i stx_mem insn = insn.k < 16
Fits n flags i ja insn =
    ((bit_and flags validate_allow_backward_jumps ≡ 0) × InReach n i insn.k)
    ⊎ ((bit_and flags validate_allow_backward_jumps ≢ 0) × (wrapping_add (i + 1) insn.k < n))
Fits n flags i jgt_k insn = InReach n i insn.jt × InReach n i insn.jf
Fits n flags i jge_k insn = InReach n i insn.jt × InReach n i insn.jf
Fits n flags i jeq_k insn = InReach n i insn.jt × InReach n i insn.jf
Fits n flags i jset_k insn = InReach n i insn.jt × InReach n i insn.jf
Fits n flags i jgt_x insn = InReach n i insn.jt × InReach n i insn.jf
Fits n flags i jge_x insn = InReach n i insn.jt × InReach n i insn.jf
Fits n flags i jeq_x insn = InReach n i insn.jt × InReach n i insn.jf
Fits n flags i jset_x insn = InReach n i insn.jt × InReach n i insn.jf
Fits n flags i div_k insn = insn.k ≢ 0
Fits n flags i mod_k insn = insn.k ≢ 0
Fits n flags i _ insn = Unit
