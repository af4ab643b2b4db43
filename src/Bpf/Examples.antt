-- ===== src/Bpf/Examples.antt =====
-- Runs and instances on the filter for `ip src 1.2.3.4` of the crate's tests.
use zpr_utils.Base.{ℕ, ◌≡◌, ◌≢◌, ◌↔◌, refl, some, List, [], ◌∷◌, ok, err, arith}
use zpr_utils.Bpf.Insn.{BpfInsn, Arm, decode, stmt, jump}
use zpr_utils.Bpf.Loads.{load_word-big_endian}
use zpr_utils.Bpf.Words.{load_halfword, load_word}
use zpr_utils.Bpf.Validate.{
  do_validate, check_insn, validate, validate_with_flags, check_from, ends_in_ret,
  invalid_instruction, divide_by_zero,
}
use zpr_utils.Bpf.Vm.{returned, fault, filter, filter_slice, run, step, exec, do_jmp}
use zpr_utils.Bpf.Accepted.{Fits}
use zpr_utils.Bpf.Accepted.Sound.{check_insn_iff}
use zpr_utils.Bpf.Accepted.Program.{IsAccepted, AreInsns, do_validate_iff}
use zpr_utils.Bpf.Accepted.First.{Reported, do_validate-Reported}
use zpr_utils.Bpf.Safety.{filter_slice-ne-fault, filter_slice-returned}
use zpr_utils.Bpf.Interface.{filter-validate}

abbrev ip_src : List BpfInsn
ip_src =
    stmt 0x28 12
    ∷ jump 0x15 0x800 0 3
    ∷ stmt 0x20 26
    ∷ jump 0x15 0x0102_0304 0 1
    ∷ stmt 0x06 262144
    ∷ stmt 0x06 0
    ∷ []

abbrev packet_from : ℕ → ℕ → ℕ → ℕ → List ℕ
packet_from a b c d =
    0 ∷ 0 ∷ 0 ∷ 0 ∷ 0 ∷ 0 ∷ 0 ∷ 0 ∷ 0 ∷ 0 ∷ 0 ∷ 0 ∷ 8 ∷ 0 ∷ 0 ∷ 0 ∷ 0 ∷ 0 ∷ 0 ∷ 0 ∷ 0 ∷ 0 ∷ 0 ∷ 0
    ∷ 0 ∷ 0 ∷ a ∷ b ∷ c ∷ d ∷ []

matches : filter_slice 6 ip_src (packet_from 1 2 3 4) ≡ returned 262144
unfolding filter_slice run step decode exec do_jmp load_halfword load_word
matches = refl

differs : filter_slice 6 ip_src (packet_from 5 6 7 8) ≡ returned 0
unfolding filter_slice run step decode exec do_jmp load_halfword load_word
differs = refl

valid : do_validate ip_src 0 ≡ ok tt
unfolding do_validate check_from check_insn ends_in_ret
valid = refl

-- The validator's own test: `BpfInsn::stmt(RET | LEN, 0)`.
refused : validate (stmt 0x86 0 ∷ []) ≡ err invalid_instruction
unfolding validate validate_with_flags do_validate check_from check_insn
refused = refl

ip_src-AreInsns : AreInsns ip_src
ip_src-AreInsns = omega arith

do_validate_iff_example : (do_validate ip_src 0 ≡ ok tt) ↔ IsAccepted ip_src 0
do_validate_iff_example = do_validate_iff ip_src 0 ip_src-AreInsns

check_insn_iff_example :
    (check_insn 6 0 2 (record { code = 0x20; jt = 0; jf = 0; k = 26 }) ≡ ok tt) ↔ (
      (arm : Arm) × (decode 0x20 ≡ some arm)
      × Fits 6 0 2 arm (record { code = 0x20; jt = 0; jf = 0; k = 26 }))
check_insn_iff_example =
    check_insn_iff 6 0 2 (record { code = 0x20; jt = 0; jf = 0; k = 26 }) (omega arith)

filter_slice-ne-fault_example : filter_slice 3 ip_src (packet_from 5 6 7 8) ≢ fault
filter_slice-ne-fault_example =
    filter_slice-ne-fault ip_src 0 (packet_from 5 6 7 8) 3 ip_src-AreInsns valid

filter_slice-returned_example : (r : ℕ) × (filter_slice 6 ip_src (packet_from 5 6 7 8) ≡ returned r)
filter_slice-returned_example =
    filter_slice-returned ip_src 0 (packet_from 5 6 7 8) 6 ip_src-AreInsns valid refl (omega arith)

load_word-big_endian_example : load_word (packet_from 1 2 3 4) 26 ≡ some 0x0102_0304
load_word-big_endian_example =
    load_word-big_endian (packet_from 1 2 3 4) (omega arith) 26 1 2 3 4 refl refl refl refl

filter-validate_example :
    (r : ℕ) × (filter 6 (record { insns = ip_src }) (packet_from 5 6 7 8) ≡ returned r)
unfolding validate validate_with_flags do_validate check_from check_insn ends_in_ret
filter-validate_example =
    filter-validate ip_src (record { insns = ip_src }) (packet_from 5 6 7 8) ip_src-AreInsns refl

-- The second instruction divides by zero, and the third jumps too far.
abbrev two_faults : List BpfInsn
two_faults =
    record { code = 0x20; jt = 0; jf = 0; k = 0 }
    ∷ record { code = 0x34; jt = 0; jf = 0; k = 0 }
    ∷ record { code = 0x05; jt = 0; jf = 0; k = 9 }
    ∷ record { code = 0x16; jt = 0; jf = 0; k = 0 }
    ∷ []

do_validate-Reported_example :
    (do_validate two_faults 0 ≡ err divide_by_zero) ↔ Reported two_faults 0 divide_by_zero
do_validate-Reported_example = do_validate-Reported two_faults 0 (omega arith) divide_by_zero

first_reported : do_validate two_faults 0 ≡ err divide_by_zero
unfolding do_validate check_from check_insn
first_reported = refl
