-- ===== src/Bpf/Safety.antt =====
-- A validated program never runs into undefined behaviour, and without backward jumps it returns.
mod Arms
use zpr_utils.Base.{
  ℕ, zero, suc, ◌+◌, ◌-◌, ◌^◌, ◌≤◌, ◌<◌, ◌≡◌, ◌≢◌, ◌⊎◌, inl, inr, refl, sym, ap, ◌∙◌, subst,
  bit_and, some, List, arith, length, length-replicate, get_elem?, get_elem?-of_lt, ok,
  lt_of_get_elem?,
}
use Arms.{Keeps, IsReturn, NoBackwardJumps, exec-Keeps}
use zpr_utils.Bpf.Code.{code_class, ret}
use zpr_utils.Bpf.Insn.{BpfInsn, Arm, decode, ret_k}
use zpr_utils.Bpf.Validate.{do_validate, u32_max}
use zpr_utils.Bpf.Vm.{
  Machine, Outcome, returned, continue, fault, ◌>>=◌, exec, step, run, start, memwords,
  filter_slice,
}
use zpr_utils.Bpf.Words.{unchecked_add}
use zpr_utils.Bpf.Accepted.{Fits, encode, encode-decode}
use zpr_utils.Bpf.Accepted.Program.{IsAccepted, AreInsns, do_validate_iff}

pub record IsSafe (insns : List BpfInsn) (s : Machine) : Type 0 where
  pub within : s.pc < length insns
  pub memory : length s.mem ≡ memwords

class-IsReturn : (arm : Arm) → code_class (encode arm) ≡ ret → IsReturn arm
class-IsReturn ret_k e = tt
class-IsReturn _ e = ground arith

advance : (pc n : ℕ) → pc < n → n ≤ u32_max → unchecked_add pc 1 ≡ some (pc + 1)
advance pc n h short = ground arith

module _ (insns : List BpfInsn) (flags : ℕ) (v : IsAccepted insns flags) (packet : List ℕ) where
  -- The instruction after the last is never reached: the last one returns.
  more_or_IsReturn :
      (i : ℕ) (insn : BpfInsn) (arm : Arm)
      → get_elem? insns i ≡ some insn
      → decode insn.code ≡ some arm
      → (i + 1 < length insns) ⊎ IsReturn arm
  more_or_IsReturn i insn arm g d =
      let (j, final, l, at, class) = v.ends in
      elim (ends_or_goes_on i j l (lt_of_get_elem? insns i g)) [
        | inl more ↦ inl more
        | inr last ↦
            let same : insn ≡ final =
              let two : some insn ≡ some final =
                sym g ∙ subst (λ t. get_elem? insns t ≡ some final) (sym last) at in
              cc in
            inr (
              class-IsReturn arm (
                ap code_class (sym (encode-decode insn.code arm d))
                ∙ ap (λ (t : BpfInsn). code_class t.code) same
                ∙ class))
      ]
    where
      ends_or_goes_on :
          (i j : ℕ) → length insns ≡ suc j → i < length insns → (i + 1 < length insns) ⊎ (i ≡ j)
      ends_or_goes_on i j l h = grind arith

  step-Keeps :
      (s : Machine) → IsSafe insns s → Keeps (length insns) flags (s.pc + 1) (step insns packet s)
  unfolding step
  step-Keeps s safe =
      let (insn, g) = get_elem?-of_lt insns s.pc safe.within in
      let (arm, d, fits) = v.each s.pc insn g in
      let advanced : unchecked_add s.pc 1 ≡ some (s.pc + 1) =
        advance s.pc (length insns) safe.within v.short in
      rw (g, advanced, d)
        (exec-Keeps (length insns) flags s.pc insn packet (record s { pc = s.pc + 1 }) v.short refl
          safe.memory arm fits (more_or_IsReturn s.pc insn arm g d))

  abbrev StepCases : Machine → Outcome → Type 0
  StepCases s o =
      ((v : ℕ) × (o ≡ returned v))
      ⊎ ((s' : Machine) × (o ≡ continue s')
          × IsSafe insns s'
          × (NoBackwardJumps flags → s.pc < s'.pc))

  Keeps-StepCases :
      (s : Machine) (o : Outcome) → Keeps (length insns) flags (s.pc + 1) o → StepCases s o
  Keeps-StepCases s (returned v) k = inl (v, refl)
  Keeps-StepCases s (continue s') k =
      inr (s', refl, record { within = k.0; memory = k.1 }, λ b. omega (arith, k.2 b))
  Keeps-StepCases s fault k = absurd k

  step-cases : (s : Machine) → IsSafe insns s → StepCases s (step insns packet s)
  step-cases s safe = Keeps-StepCases s (step insns packet s) (step-Keeps s safe)

  run-ne-fault : (fuel : ℕ) (s : Machine) → IsSafe insns s → run fuel insns packet s ≢ fault
  unfolding run
  run-ne-fault zero s safe = λ e. cc
  run-ne-fault (suc fuel) s safe = elim (step-cases s safe) [
    | inl (r, e) ↦ rw (e, run) (λ h. cc)
    | inr (s', e, safe', _) ↦ rw (e, run) (run-ne-fault fuel s' safe')
  ]

  run-returned :
      NoBackwardJumps flags
      → (fuel : ℕ) (s : Machine) → IsSafe insns s
      → length insns ≤ s.pc + fuel
      → (r : ℕ) × (run fuel insns packet s ≡ returned r)
  unfolding run
  run-returned b zero s safe enough = absurd (omega (arith, safe.within))
  run-returned b (suc fuel) s safe enough = elim (step-cases s safe) [
    | inl (r, e) ↦ (r, rw (e, run))
    | inr (s', e, safe', onward) ↦
        let (r, h) = run-returned b fuel s' safe' (omega (arith, onward b)) in (r, rw (e, run) h)
  ]

  start-IsSafe : IsSafe insns start
  start-IsSafe =
      let l = v.ends.2 in
      record { within = omega (arith, l); memory = length-replicate {A = ℕ} memwords 0 }

-- On instructions of the declared widths, a program that validation accepted, with or without
-- backward jumps, never reaches undefined behaviour: whatever the packet, and for any number of
-- rounds of the interpreter.
pub filter_slice-ne-fault :
    (insns : List BpfInsn) (flags : ℕ) (packet : List ℕ) (fuel : ℕ)
    → AreInsns insns
    → do_validate insns flags ≡ ok tt
    → filter_slice fuel insns packet ≢ fault
unfolding filter_slice
filter_slice-ne-fault insns flags packet fuel widths valid =
    let v = (do_validate_iff insns flags widths).0 valid in
    run-ne-fault insns flags v packet fuel start (start-IsSafe insns flags v packet)

-- On instructions of the declared widths, a program that validation accepted with backward jumps
-- not allowed returns a value on every packet, in at most as many rounds as it has instructions.
pub filter_slice-returned :
    (insns : List BpfInsn) (flags : ℕ) (packet : List ℕ) (fuel : ℕ)
    → AreInsns insns
    → do_validate insns flags ≡ ok tt
    → NoBackwardJumps flags
    → length insns ≤ fuel
    → (r : ℕ) × (filter_slice fuel insns packet ≡ returned r)
unfolding filter_slice
filter_slice-returned insns flags packet fuel widths valid forward enough =
    let v = (do_validate_iff insns flags widths).0 valid in
    run-returned insns flags v packet forward fuel start (start-IsSafe insns flags v packet)
      (omega arith)
