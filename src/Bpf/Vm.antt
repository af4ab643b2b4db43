-- ===== src/Bpf/Vm.antt =====
-- cbpf-rs/src/lib.rs, `BpfProgram::filter_slice`: the machine, one arm of the match at a time.
-- Undefined behaviour (an unchecked access out of range, an unchecked addition that overflows,
-- `unreachable_unchecked`) is the outcome `fault`.
use zpr_utils.Base.{
  ℕ, zero, suc, ◌-◌, ◌/◌, ◌%◌, bit_and, bit_or, bit_xor, Bool, not, ◌||◌, Option, none, some, List,
  ltb, leb, ◌==◌, if◌then◌else◌, length, get_elem?, set, replicate,
}
use zpr_utils.Bpf.Words.{
  as_u32, wrapping_add, wrapping_sub, wrapping_mul, wrapping_neg, shl32, shr32, unchecked_add,
  load_byte, load_halfword, load_word,
}
use zpr_utils.Bpf.Insn.{
  BpfInsn, Arm, decode, ret_k, ret_a, ld_w_abs, ld_h_abs, ld_b_abs, ld_len, ldx_len, ld_w_ind,
  ld_h_ind, ld_b_ind, ldx_msh, ld_imm, ldx_imm, ld_mem, ldx_mem, st_mem, stx_mem, ja, jgt_k, jge_k,
  jeq_k, jset_k, jgt_x, jge_x, jeq_x, jset_x, add_x, sub_x, mul_x, div_x, mod_x, and_x, or_x, xor_x,
  lsh_x, rsh_x, add_k, sub_k, mul_k, div_k, mod_k, and_k, or_k, xor_k, lsh_k, rsh_k, neg, tax, txa,
}

abbrev pub memwords : ℕ
memwords = 16

pub record Machine : Type 0 where
  pub a : ℕ
  pub x : ℕ
  pub pc : ℕ
  pub mem : List ℕ

pub data Outcome : Type 0 where
  returned : ℕ → Outcome
  continue : Machine → Outcome
  fault : Outcome

-- An unchecked read that must succeed.
infixl 5 ◌>>=◌
abbrev pub ◌>>=◌ {ℓ} : {A : Type ℓ} → Option A → (A → Outcome) → Outcome
none >>= f = fault
some v >>= f = f v

-- The guard of a load of `n` bytes at `k`.
abbrev pub too_short : List ℕ → ℕ → ℕ → Bool
too_short packet k n = ltb (length packet) k || ltb (length packet - k) n

unfoldable pub do_jmp : Bool → BpfInsn → Machine → Outcome
do_jmp taken insn s = do
  pc ← unchecked_add s.pc (if taken then insn.jt else insn.jf)
  continue (record s { pc = pc })

abbrev set_a : ℕ → Machine → Outcome
set_a v s = continue (record s { a = v })

abbrev load_a : Option ℕ → Machine → Outcome
load_a loaded s = do v ← loaded; set_a v s

abbrev store_mem : ℕ → ℕ → Machine → Outcome
store_mem k v s =
    if ltb k (length s.mem) then continue (record s { mem = set s.mem k v }) else fault

-- The body of each arm; `pc` has been advanced.
unfoldable pub exec : Arm → BpfInsn → List ℕ → Machine → Outcome
exec ret_k i p s = returned i.k
exec ret_a i p s = returned s.a
exec ld_w_abs i p s =
    let k = i.k in if too_short p k 4 then returned 0 else load_a (load_word p k) s
exec ld_h_abs i p s =
    let k = i.k in if too_short p k 2 then returned 0 else load_a (load_halfword p k) s
exec ld_b_abs i p s =
    let k = i.k in if leb (length p) k then returned 0 else load_a (load_byte p k) s
exec ld_len i p s = continue (record s { a = as_u32 (length p) })
exec ldx_len i p s = continue (record s { x = as_u32 (length p) })
exec ld_w_ind i p s =
    let k = wrapping_add s.x i.k in if too_short p k 4 then returned 0 else load_a (load_word p k) s
exec ld_h_ind i p s =
    let k = wrapping_add s.x i.k in
    if too_short p k 2 then returned 0 else load_a (load_halfword p k) s
exec ld_b_ind i p s =
    let k = wrapping_add s.x i.k in
    if leb (length p) k then returned 0 else load_a (load_byte p k) s
exec ldx_msh i p s =
    if leb (length p) i.k
    then returned 0
    else (do v ← load_byte p i.k; continue (record s { x = shl32 (bit_and v 0xf) 2 }))
exec ld_imm i p s = continue (record s { a = i.k })
exec ldx_imm i p s = continue (record s { x = i.k })
exec ld_mem i p s = do v ← get_elem? s.mem i.k; continue (record s { a = v })
exec ldx_mem i p s = do v ← get_elem? s.mem i.k; continue (record s { x = v })
exec st_mem i p s = store_mem i.k s.a s
exec stx_mem i p s = store_mem i.k s.x s
exec ja i p s = continue (record s { pc = wrapping_add s.pc i.k })
exec jgt_k i p s = do_jmp (ltb i.k s.a) i s
exec jge_k i p s = do_jmp (leb i.k s.a) i s
exec jeq_k i p s = do_jmp (s.a == i.k) i s
exec jset_k i p s = do_jmp (not (bit_and s.a i.k == 0)) i s
exec jgt_x i p s = do_jmp (ltb s.x s.a) i s
exec jge_x i p s = do_jmp (leb s.x s.a) i s
exec jeq_x i p s = do_jmp (s.a == s.x) i s
exec jset_x i p s = do_jmp (not (bit_and s.a s.x == 0)) i s
exec add_x i p s = set_a (wrapping_add s.a s.x) s
exec sub_x i p s = set_a (wrapping_sub s.a s.x) s
exec mul_x i p s = set_a (wrapping_mul s.a s.x) s
exec div_x i p s = if s.x == 0 then returned 0 else set_a (s.a / s.x) s
exec mod_x i p s = if s.x == 0 then returned 0 else set_a (s.a % s.x) s
exec and_x i p s = set_a (bit_and s.a s.x) s
exec or_x i p s = set_a (bit_or s.a s.x) s
exec xor_x i p s = set_a (bit_xor s.a s.x) s
exec lsh_x i p s = set_a (if ltb s.x 32 then shl32 s.a s.x else 0) s
exec rsh_x i p s = set_a (if ltb s.x 32 then shr32 s.a s.x else 0) s
exec add_k i p s = set_a (wrapping_add s.a i.k) s
exec sub_k i p s = set_a (wrapping_sub s.a i.k) s
exec mul_k i p s = set_a (wrapping_mul s.a i.k) s
exec div_k i p s = if i.k == 0 then returned 0 else set_a (s.a / i.k) s
exec mod_k i p s = if i.k == 0 then returned 0 else set_a (s.a % i.k) s
exec and_k i p s = set_a (bit_and s.a i.k) s
exec or_k i p s = set_a (bit_or s.a i.k) s
exec xor_k i p s = set_a (bit_xor s.a i.k) s
exec lsh_k i p s = set_a (if ltb i.k 32 then shl32 s.a i.k else 0) s
exec rsh_k i p s = set_a (if ltb i.k 32 then shr32 s.a i.k else 0) s
exec neg i p s = set_a (wrapping_neg s.a) s
exec tax i p s = continue (record s { x = s.a })
exec txa i p s = continue (record s { a = s.x })

-- One round of the loop.
unfoldable pub step : List BpfInsn → List ℕ → Machine → Outcome
step insns packet s = do
  insn ← get_elem? insns s.pc
  pc ← unchecked_add s.pc 1
  arm ← decode insn.code
  exec arm insn packet (record s { pc = pc })

-- The loop, on fuel. A machine that is left when the fuel runs out is `continue`.
unfoldable pub run : ℕ → List BpfInsn → List ℕ → Machine → Outcome
run zero insns packet s = continue s
run (suc fuel) insns packet s = elim (step insns packet s) [
  | returned v ↦ returned v
  | continue s' ↦ run fuel insns packet s'
  | fault ↦ fault
]

abbrev pub start : Machine
start = record { a = 0; x = 0; pc = 0; mem = replicate memwords 0 }

unfoldable pub filter_slice : ℕ → List BpfInsn → List ℕ → Outcome
filter_slice fuel insns packet = run fuel insns packet start

-- A BPF program, `BpfProgram`, and its `filter`.
pub record BpfProgram : Type 0 where
  pub insns : List BpfInsn

pub new_unvalidated : List BpfInsn → BpfProgram
new_unvalidated insns = record { insns = insns }

unfoldable pub filter : ℕ → BpfProgram → List ℕ → Outcome
filter fuel program packet = filter_slice fuel program.insns packet
