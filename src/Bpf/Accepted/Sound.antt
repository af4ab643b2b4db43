-- ===== src/Bpf/Accepted/Sound.antt =====
-- `check_insn` accepts an instruction exactly when it selects an arm and its operands fit.
use zpr_utils.Base.{
  ℕ, ◌<◌, ◌≡◌, ◌↔◌, inl, inr, refl, sym, ap, ◌∙◌, subst, Bool, true, false, not, ◌||◌, Option, none,
  some, ok, err, arith, holds_below, holds_below-at, Option-cases, bit_and,
}
use zpr_utils.Base.Bits.{bit, bit-bit_and}
use zpr_utils.Bpf.Insn.{BpfInsn, Arm, decode}
use zpr_utils.Bpf.Validate.{check_insn, Check}
use zpr_utils.Bpf.Accepted.{encode-decode, Fits}
use zpr_utils.Bpf.Accepted.Operands.{insn_of, Fits-check, check-Fits}

abbrev is_ok : Check → Bool
is_ok (ok a) = true
is_ok (err e) = false

abbrev pub is_some : Option Arm → Bool
is_some none = false
is_some (some a) = true

-- Operands that no check refuses.
abbrev pub benign : ℕ → BpfInsn
benign code = record { code = code; jt = 0; jf = 0; k = 1 }

-- Whatever is accepted is accepted with those operands too.
check-benign :
    (n flags i : ℕ) (insn : BpfInsn)
    → check_insn n flags i insn ≡ ok tt
    → check_insn 10 0 0 (benign insn.code) ≡ ok tt
unfolding check_insn
check-benign n flags i insn h = ground arith

-- No u16 beyond a byte passes the first test.
pub high_bits : (code : ℕ) → code < 65536 → bit_and code 0xff00 ≡ 0 → code < 256
high_bits code h e =
    let digit = λ (j : ℕ). sym (bit-bit_and j code 0xff00) ∙ ap (bit j) e in
    omega (arith, digit 8, digit 9, digit 10, digit 11, digit 12, digit 13, digit 14, digit 15)

check-lt_256 :
    (n flags i : ℕ) (insn : BpfInsn)
    → insn.code < 65536
    → check_insn n flags i insn ≡ ok tt
    → insn.code < 256
unfolding check_insn
check-lt_256 n flags i insn h e = ground (arith, high_bits insn.code)

-- Every byte is refused, or is the code of an arm.
abbrev pub known_or_refused : ℕ → Bool
known_or_refused code = not (is_ok (check_insn 10 0 0 (benign code))) || is_some (decode code)

every_code : holds_below known_or_refused 256 ≡ true
unfolding holds_below check_insn decode
every_code = refl

known :
    (code : ℕ)
    → check_insn 10 0 0 (benign code) ≡ ok tt
    → known_or_refused code ≡ true
    → (arm : Arm) × (decode code ≡ some arm)
known code e t = elim (Option-cases (decode code)) [
  | inl missing ↦ ground arith
  | inr found ↦ found
]

-- An instruction with a 16-bit code is accepted exactly when its code selects an arm of the
-- interpreter and its operands fit that arm.
pub check_insn_iff :
    (n flags i : ℕ) (insn : BpfInsn)
    → insn.code < 65536
    → (check_insn n flags i insn ≡ ok tt)
      ↔ ((arm : Arm) × (decode insn.code ≡ some arm) × Fits n flags i arm insn)
check_insn_iff n flags i insn width = (forth, back)
  where
    of_arm :
        (arm : Arm)
        → decode insn.code ≡ some arm
        → insn ≡ insn_of n flags i insn.jt insn.jf insn.k arm
    of_arm arm d =
        let e = encode-decode insn.code arm d in
        λ j. record { code = e j; jt = insn.jt; jf = insn.jf; k = insn.k }

    back :
        ((arm : Arm) × (decode insn.code ≡ some arm) × Fits n flags i arm insn)
        → check_insn n flags i insn ≡ ok tt
    back (arm, d, h) =
        subst (λ v. check_insn n flags i v ≡ ok tt) (sym (of_arm arm d))
          (Fits-check n flags i insn.jt insn.jf insn.k arm
            (subst (Fits n flags i arm) (of_arm arm d) h))

    forth :
        check_insn n flags i insn ≡ ok tt
        → (arm : Arm) × (decode insn.code ≡ some arm) × Fits n flags i arm insn
    forth e =
        let (arm, d) = known insn.code (check-benign n flags i insn e) (
          holds_below-at known_or_refused insn.code 256 (check-lt_256 n flags i insn width e)
            every_code) in
        (
          arm,
          d,
          subst (Fits n flags i arm) (sym (of_arm arm d)) (
              check-Fits n flags i insn.jt insn.jf insn.k arm
                (subst (λ v. check_insn n flags i v ≡ ok tt) (of_arm arm d) e)),
        )
