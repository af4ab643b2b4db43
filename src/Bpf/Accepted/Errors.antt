-- ===== src/Bpf/Accepted/Errors.antt =====
-- The error that `check_insn` reports for an instruction that it refuses.
use zpr_utils.Base.{
  ℕ, ◌<◌, ◌≡◌, ◌⊎◌, ◌↔◌, inl, inr, refl, sym, ap, ◌∙◌, subst, Bool, Bool-cases, true, false, ◌||◌,
  ◌==◌, none, some, ok, err, arith, holds_below, holds_below-at, Option-cases, bit_and,
}
use zpr_utils.Bpf.Insn.{
  BpfInsn, Arm, decode, ret_k, ld_mem, ldx_mem, st_mem, stx_mem, ja, jgt_k, jge_k, jeq_k, jset_k,
  jgt_x, jge_x, jeq_x, jset_x, div_k, mod_k,
}
use zpr_utils.Bpf.Validate.{
  check_insn, Check, BpfError, invalid_instruction, bad_jump_target, bad_memory_access,
  divide_by_zero,
}
use zpr_utils.Bpf.Accepted.{encode-decode, Fits}
use zpr_utils.Bpf.Accepted.Operands.{insn_of}
use zpr_utils.Bpf.Accepted.Sound.{benign, high_bits, is_some, check_insn_iff}

-- What is wrong with operands that do not fit an arm.
abbrev pub blame : Arm → BpfError
blame ld_mem = bad_memory_access
blame ldx_mem = bad_memory_access
blame st_mem = bad_memory_access
blame stx_mem = bad_memory_access
blame ja = bad_jump_target
blame jgt_k = bad_jump_target
blame jge_k = bad_jump_target
blame jeq_k = bad_jump_target
blame jset_k = bad_jump_target
blame jgt_x = bad_jump_target
blame jge_x = bad_jump_target
blame jeq_x = bad_jump_target
blame jset_x = bad_jump_target
blame div_k = divide_by_zero
blame mod_k = divide_by_zero
blame _ = invalid_instruction

-- The code selects no arm, or the operands do not fit it.
abbrev pub Blamed : ℕ → ℕ → ℕ → BpfInsn → BpfError → Type 0
Blamed n flags i insn e =
    ((decode insn.code ≡ none) × (e ≡ invalid_instruction))
    ⊎ ((arm : Arm) × (decode insn.code ≡ some arm)
        × (Fits n flags i arm insn → ⊥)
        × (e ≡ blame arm))

check-blame :
    (n flags i jt jf k : ℕ) (arm : Arm) (e : BpfError)
    → check_insn n flags i (insn_of n flags i jt jf k arm) ≡ err e
    → e ≡ blame arm
unfolding check_insn
check-blame n flags i jt jf k ret_k e h = ground arith
check-blame n flags i jt jf k _ e h = ground arith

abbrev is_invalid : Check → Bool
is_invalid (ok a) = false
is_invalid (err invalid_instruction) = true
is_invalid (err _) = false

-- Every byte is the code of an arm, or is refused as invalid.
abbrev known_or_invalid : ℕ → Bool
known_or_invalid code = is_some (decode code) || is_invalid (check_insn 10 0 0 (benign code))

every_invalid : holds_below known_or_invalid 256 ≡ true
unfolding holds_below check_insn decode
every_invalid = refl

is_invalid-eq : (c : Check) → is_invalid c ≡ true → c ≡ err invalid_instruction
is_invalid-eq (ok a) h = cc
is_invalid-eq (err invalid_instruction) h = refl
is_invalid-eq (err _) h = cc

benign_invalid :
    (n flags i : ℕ) (insn : BpfInsn)
    → check_insn 10 0 0 (benign insn.code) ≡ err invalid_instruction
    → check_insn n flags i insn ≡ err invalid_instruction
unfolding check_insn
benign_invalid n flags i insn h = ground arith

high_invalid :
    (n flags i : ℕ) (insn : BpfInsn)
    → (bit_and insn.code 0xff00 == 0) ≡ false
    → check_insn n flags i insn ≡ err invalid_instruction
unfolding check_insn
high_invalid n flags i insn h = ground arith

-- A code that selects no arm is refused as invalid, whatever the operands.
unknown_invalid :
    (n flags i : ℕ) (insn : BpfInsn)
    → insn.code < 65536
    → decode insn.code ≡ none
    → check_insn n flags i insn ≡ err invalid_instruction
unknown_invalid n flags i insn width unknown = elim (Bool-cases (bit_and insn.code 0xff00 == 0)) [
  | inr high ↦ high_invalid n flags i insn high
  | inl low ↦
      let byte : insn.code < 256 = high_bits insn.code width (ground arith) in
      let known = holds_below-at known_or_invalid insn.code 256 byte every_invalid in
      benign_invalid n flags i insn
        (is_invalid-eq (check_insn 10 0 0 (benign insn.code)) (rw unknown at known))
]

-- An instruction with a 16-bit code is refused with an error exactly when that is to blame: its
-- code selects no arm, and the error is that it is invalid; or its operands do not fit the arm, and
-- the error is the arm's: a bad memory access, a bad jump target, or a division by zero.
pub check_insn-Blamed :
    (n flags i : ℕ) (insn : BpfInsn) (e : BpfError)
    → insn.code < 65536
    → (check_insn n flags i insn ≡ err e) ↔ Blamed n flags i insn e
check_insn-Blamed n flags i insn e width = (forth, back)
  where
    of_arm :
        (arm : Arm)
        → decode insn.code ≡ some arm
        → insn ≡ insn_of n flags i insn.jt insn.jf insn.k arm
    of_arm arm d =
        let code = encode-decode insn.code arm d in
        λ j. record { code = code j; jt = insn.jt; jf = insn.jf; k = insn.k }

    blamed_arm :
        (arm : Arm) (e' : BpfError)
        → decode insn.code ≡ some arm
        → check_insn n flags i insn ≡ err e'
        → e' ≡ blame arm
    blamed_arm arm e' d h =
        check-blame n flags i insn.jt insn.jf insn.k arm e'
          (subst (λ v. check_insn n flags i v ≡ err e') (of_arm arm d) h)

    forth : check_insn n flags i insn ≡ err e → Blamed n flags i insn e
    forth h = elim (Option-cases (decode insn.code)) [
      | inl unknown ↦ let found = unknown_invalid n flags i insn width unknown in inl (unknown, cc)
      | inr (arm, d) ↦ inr (
        arm,
        d,
        λ fits. let passes = (check_insn_iff n flags i insn width).1 (arm, d, fits) in cc,
        blamed_arm arm e d h,
      )
    ]

    back : Blamed n flags i insn e → check_insn n flags i insn ≡ err e
    back (inl (unknown, same)) = unknown_invalid n flags i insn width unknown ∙ ap err (sym same)
    back (inr (arm, d, misfit, same)) = by_check (check_insn n flags i insn) refl
      where
        by_check : (c : Check) → check_insn n flags i insn ≡ c → c ≡ err e
        by_check (ok tt) h =
            let (arm', d', fits) = (check_insn_iff n flags i insn width).0 h in
            let same_arm : arm' ≡ arm = cc in
            absurd (misfit (subst (λ a. Fits n flags i a insn) same_arm fits))
        by_check (err e') h = ap err (blamed_arm arm e' d h ∙ sym same)
