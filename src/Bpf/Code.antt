-- ===== src/Bpf/Code.antt =====
-- cbpf-rs/src/lib.rs, module `bpf_code`: the fields of an instruction's code and their values.
use zpr_utils.Base.{ℕ, bit_and, Bool, not, ◌==◌}

abbrev pub code_class : ℕ → ℕ
code_class code = bit_and code 0x07

abbrev pub ld : ℕ
ld = 0x00

abbrev pub ldx : ℕ
ldx = 0x01

abbrev pub st : ℕ
st = 0x02

abbrev pub stx : ℕ
stx = 0x03

abbrev pub alu : ℕ
alu = 0x04

abbrev pub jmp : ℕ
jmp = 0x05

abbrev pub ret : ℕ
ret = 0x06

abbrev pub misc : ℕ
misc = 0x07

abbrev pub code_size : ℕ → ℕ
code_size code = bit_and code 0x18

abbrev pub size_w : ℕ
size_w = 0x00

abbrev pub size_h : ℕ
size_h = 0x08

abbrev pub size_b : ℕ
size_b = 0x10

abbrev pub valid_code_size : ℕ → Bool
valid_code_size size = not (size == 0x18)

abbrev pub code_mode : ℕ → ℕ
code_mode code = bit_and code 0xe0

abbrev pub mode_imm : ℕ
mode_imm = 0x00

abbrev pub mode_abs : ℕ
mode_abs = 0x20

abbrev pub mode_ind : ℕ
mode_ind = 0x40

abbrev pub mode_mem : ℕ
mode_mem = 0x60

abbrev pub mode_len : ℕ
mode_len = 0x80

abbrev pub mode_msh : ℕ
mode_msh = 0xa0

abbrev pub code_op : ℕ → ℕ
code_op code = bit_and code 0xf0

abbrev pub op_add : ℕ
op_add = 0x00

abbrev pub op_sub : ℕ
op_sub = 0x10

abbrev pub op_mul : ℕ
op_mul = 0x20

abbrev pub op_div : ℕ
op_div = 0x30

abbrev pub op_or : ℕ
op_or = 0x40

abbrev pub op_and : ℕ
op_and = 0x50

abbrev pub op_lsh : ℕ
op_lsh = 0x60

abbrev pub op_rsh : ℕ
op_rsh = 0x70

abbrev pub op_neg : ℕ
op_neg = 0x80

abbrev pub op_mod : ℕ
op_mod = 0x90

abbrev pub op_xor : ℕ
op_xor = 0xa0

abbrev pub op_ja : ℕ
op_ja = 0x00

abbrev pub op_jeq : ℕ
op_jeq = 0x10

abbrev pub op_jgt : ℕ
op_jgt = 0x20

abbrev pub op_jge : ℕ
op_jge = 0x30

abbrev pub op_jset : ℕ
op_jset = 0x40

abbrev pub code_src : ℕ → ℕ
code_src code = bit_and code 0x08

abbrev pub src_k : ℕ
src_k = 0x00

abbrev pub src_x : ℕ
src_x = 0x08

abbrev pub code_rval : ℕ → ℕ
code_rval code = bit_and code 0x18

abbrev pub rval_a : ℕ
rval_a = 0x10

abbrev pub code_miscop : ℕ → ℕ
code_miscop code = bit_and code 0xf8

abbrev pub misc_tax : ℕ
misc_tax = 0x00

abbrev pub misc_txa : ℕ
misc_txa = 0x80
