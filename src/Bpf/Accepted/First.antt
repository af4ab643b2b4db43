-- ===== src/Bpf/Accepted/First.antt =====
-- The error that `do_validate` reports for a program that it refuses.
use zpr_utils.Base.{
  ℕ, zero, suc, ◌+◌, ◌≤◌, ◌<◌, ◌≡◌, ◌⊎◌, ◌↔◌, inl, inr, refl, sym, ap, ◌∙◌, subst, Bool, Bool-cases,
  true, false, not, some, ok, err, List, [], ◌∷◌, arith, ltb, get_elem?, length, All-get_elem?,
  ◌>>◌,
}
use zpr_utils.Bpf.Insn.{BpfInsn, Arm, decode}
use zpr_utils.Bpf.Validate.{
  check_insn, check_from, ends_in_ret, do_validate, refuse_if, u32_max, Check, BpfError,
  program_too_large, missing_return,
}
use zpr_utils.Bpf.Words.{as_u32}
use zpr_utils.Bpf.Accepted.{Fits}
use zpr_utils.Bpf.Accepted.Sound.{check_insn_iff}
use zpr_utils.Bpf.Accepted.Errors.{Blamed, check_insn-Blamed}
use zpr_utils.Bpf.Accepted.Program.{
  IsInsn, AreInsns, EndsInRet, ends_in_ret-EndsInRet, EndsInRet-ends_in_ret, check_from-each,
  each-check_from,
}

-- The instruction is of the described set, and its operands fit its place.
abbrev pub IsFit : ℕ → ℕ → ℕ → BpfInsn → Type 0
IsFit n flags i insn = (arm : Arm) × (decode insn.code ≡ some arm) × Fits n flags i arm insn

-- Instruction `i` is to blame, and those before it are not.
pub record FirstBlamed (insns : List BpfInsn) (flags i : ℕ) (e : BpfError) : Type 0 where
  pub insn : BpfInsn
  pub there : get_elem? insns i ≡ some insn
  pub blamed : Blamed (length insns) flags i insn e
  pub before :
      (j : ℕ) (other : BpfInsn)
      → j < i
      → get_elem? insns j ≡ some other
      → IsFit (length insns) flags j other

module _ (n flags : ℕ) where
  -- Where the loop stops.
  abbrev Stops : ℕ → List BpfInsn → BpfError → Type 0
  Stops i insns e =
      (d : ℕ) × (insn : BpfInsn) × (get_elem? insns d ≡ some insn)
      × (check_insn n flags (i + d) insn ≡ err e)
      × ((j : ℕ) (other : BpfInsn)
          → j < d
          → get_elem? insns j ≡ some other
          → check_insn n flags (i + j) other ≡ ok tt)

  check_from-Stops :
      (i : ℕ) (insns : List BpfInsn) (e : BpfError)
      → check_from n flags i insns ≡ err e
      → Stops i insns e
  unfolding check_from
  check_from-Stops i [] e h = cc
  check_from-Stops i (x ∷ insns) e h =
      by_check (check_insn n flags i x) refl h (check_from-Stops (i + 1) insns e)
    where
      here : i + 0 ≡ i
      here = omega arith

      by_check :
          (c : Check)
          → check_insn n flags i x ≡ c
          → (c >> check_from n flags (i + 1) insns) ≡ err e
          → (check_from n flags (i + 1) insns ≡ err e → Stops (i + 1) insns e)
          → Stops i (x ∷ insns) e
      by_check (err e') c h' later =
          let same : e' ≡ e = cc in
          (
            0,
            x,
            refl,
            ap (λ t. check_insn n flags t x) here ∙ c ∙ ap err same,
            λ j other lt g. absurd (omega arith),
          )
      by_check (ok tt) c h' later =
          let (d, insn, there, stops, before) = later h' in
          (
            suc d,
            insn,
            there,
            subst (λ t. check_insn n flags t insn ≡ err e) (shift d) stops,
            earlier d before,
          )
        where
          shift : (k : ℕ) → i + 1 + k ≡ i + suc k
          shift k = omega arith

          earlier :
              (d : ℕ)
              → ((j : ℕ) (other : BpfInsn)
                  → j < d
                  → get_elem? insns j ≡ some other
                  → check_insn n flags (i + 1 + j) other ≡ ok tt)
              → (j : ℕ) (other : BpfInsn) → j < suc d
              → get_elem? (x ∷ insns) j ≡ some other
              → check_insn n flags (i + j) other ≡ ok tt
          earlier d before zero other lt g =
              let same : x ≡ other = cc in
              subst (λ t. check_insn n flags (i + 0) t ≡ ok tt) same
                (ap (λ t. check_insn n flags t x) here ∙ c)
          earlier d before (suc j) other lt g =
              subst (λ t. check_insn n flags t other ≡ ok tt) (shift j)
                (before j other (omega arith) g)

  Stops-check_from :
      (i d : ℕ) (insns : List BpfInsn) (insn : BpfInsn) (e : BpfError)
      → get_elem? insns d ≡ some insn
      → check_insn n flags (i + d) insn ≡ err e
      → ((j : ℕ) (other : BpfInsn)
          → j < d
          → get_elem? insns j ≡ some other
          → check_insn n flags (i + j) other ≡ ok tt)
      → check_from n flags i insns ≡ err e
  unfolding check_from
  Stops-check_from i d [] insn e there stops before = cc
  Stops-check_from i zero (x ∷ insns) insn e there stops before =
      let same : insn ≡ x = cc in
      let here : i + 0 ≡ i = omega arith in
      let now : check_insn n flags i x ≡ err e =
        subst (λ t. check_insn n flags i t ≡ err e) same
          (subst (λ t. check_insn n flags t insn ≡ err e) here stops) in
      rw now refl
  Stops-check_from i (suc d) (x ∷ insns) insn e there stops before =
      let here : i + 0 ≡ i = omega arith in
      let shift : (k : ℕ) → i + suc k ≡ i + 1 + k = λ k. omega arith in
      let now : check_insn n flags i x ≡ ok tt =
        subst (λ t. check_insn n flags t x ≡ ok tt) here (before 0 x (omega arith) refl) in
      rw now (
        Stops-check_from (i + 1) d insns insn e there
          (subst (λ t. check_insn n flags t insn ≡ err e) (shift d) stops)
          (λ j other lt g.
            subst (λ t. check_insn n flags t other ≡ ok tt) (shift j)
              (before (suc j) other (omega arith) g)))

abbrev pub Reported : List BpfInsn → ℕ → BpfError → Type 0
Reported insns flags e =
    ((u32_max < length insns) × (e ≡ program_too_large))
    ⊎ ((length insns ≤ u32_max) × (i : ℕ) × FirstBlamed insns flags i e)
    ⊎ ((length insns ≤ u32_max)
        × ((i : ℕ) (insn : BpfInsn)
            → get_elem? insns i ≡ some insn
            → IsFit (length insns) flags i insn)
        × (EndsInRet insns → ⊥)
        × (e ≡ missing_return))

do_validate-long :
    (insns : List BpfInsn) (flags : ℕ)
    → u32_max < length insns
    → do_validate insns flags ≡ err program_too_large
unfolding do_validate
do_validate-long insns flags long = ground arith

do_validate-short :
    (insns : List BpfInsn) (flags : ℕ)
    → length insns ≤ u32_max
    → do_validate insns flags ≡ (
        check_from (length insns) flags 0 insns
        >> refuse_if (not (ends_in_ret insns)) missing_return)
unfolding do_validate
do_validate-short insns flags short =
    let width : as_u32 (length insns) ≡ length insns = omega arith in
    let fits : ltb u32_max (length insns) ≡ false = ground arith in rw (fits, width) refl

module _ (insns : List BpfInsn) (flags : ℕ) (widths : AreInsns insns) where
  abbrev n : ℕ
  n = length insns

  width : (i : ℕ) (insn : BpfInsn) → get_elem? insns i ≡ some insn → insn.code < 65536
  width i insn g = (All-get_elem? IsInsn insns i widths g).code_u16

  at_start :
      (i : ℕ) (insn : BpfInsn) {c : Check}
      → check_insn n flags i insn ≡ c
      → check_insn n flags (0 + i) insn ≡ c
  at_start i insn h = let same : 0 + i ≡ i = omega arith in rw same h

  from_start :
      (i : ℕ) (insn : BpfInsn) {c : Check}
      → check_insn n flags (0 + i) insn ≡ c
      → check_insn n flags i insn ≡ c
  from_start i insn h = let same : 0 + i ≡ i = omega arith in rw same at h

  loop-FirstBlamed :
      (e : BpfError)
      → (check_from n flags 0 insns ≡ err e) ↔ ((i : ℕ) × FirstBlamed insns flags i e)
  loop-FirstBlamed e = (
    λ h.
        let (i, insn, there, stops, before) = check_from-Stops n flags 0 insns e h in
        (
          i,
          record {
            insn = insn;
            there = there;
            blamed =
                (check_insn-Blamed n flags i insn e (width i insn there)).0
                  (from_start i insn stops);
            before = λ j other lt g.
                (check_insn_iff n flags j other (width j other g)).0
                  (from_start j other (before j other lt g));
          },
        ),
    λ b.
        let (i, f) = b in
        Stops-check_from n flags 0 i insns f.insn e f.there
          (at_start i f.insn
            ((check_insn-Blamed n flags i f.insn e (width i f.insn f.there)).1 f.blamed))
          (λ j other lt g.
            at_start j other
              ((check_insn_iff n flags j other (width j other g)).1 (f.before j other lt g))),
  )

  no_return : (EndsInRet insns → ⊥) → ends_in_ret insns ≡ false
  no_return unended = elim (Bool-cases (ends_in_ret insns)) [
    | inl returns ↦ absurd (unended (ends_in_ret-EndsInRet insns returns))
    | inr none_there ↦ none_there
  ]

  -- The two parts of a validation, for a program that is not too large.
  parts-Reported :
      (e : BpfError) (loop : Check) (ends : Bool)
      → length insns ≤ u32_max
      → check_from n flags 0 insns ≡ loop
      → ends_in_ret insns ≡ ends
      → (loop >> refuse_if (not ends) missing_return) ≡ err e
      → Reported insns flags e
  parts-Reported e (err e') ends short h last out =
      let same : e' ≡ e = cc in
      let (i, first) = (loop-FirstBlamed e).0 (h ∙ ap err same) in inr (inl (short, i, first))
  parts-Reported e (ok done) true short h last out = cc
  parts-Reported e (ok done) false short h last out = inr (
      inr (
        short,
        λ i insn g.
            (check_insn_iff n flags i insn (width i insn g)).0
              (check_from-each n flags 0 i i insns insn (omega arith) h g),
        λ returns. let ends = EndsInRet-ends_in_ret insns returns in cc,
        cc,
      ))

  -- On instructions of the declared widths, validation fails with an error exactly when it is the
  -- one to report: the program is too large; or it is what the first instruction that does not
  -- fit is to blame for; or all fit, and the last one does not return, or there is none.
  pub do_validate-Reported :
      (e : BpfError) → (do_validate insns flags ≡ err e) ↔ Reported insns flags e
  do_validate-Reported e = (forth, back)
    where
      forth : do_validate insns flags ≡ err e → Reported insns flags e
      forth h = elim (Bool-cases (ltb u32_max n)) [
        | inl long ↦
            let too_long : u32_max < length insns = ground arith in
            let reported = do_validate-long insns flags too_long in inl (too_long, cc)
        | inr fits ↦
            let short : length insns ≤ u32_max = ground arith in
            parts-Reported e (check_from n flags 0 insns) (ends_in_ret insns) short refl refl
              (sym (do_validate-short insns flags short) ∙ h)
      ]

      back : Reported insns flags e → do_validate insns flags ≡ err e
      back (inl (long, same)) = do_validate-long insns flags long ∙ ap err (sym same)
      back (inr (inl (short, i, first))) =
          let stops = (loop-FirstBlamed e).1 (i, first) in
          do_validate-short insns flags short ∙ rw stops refl
      back (inr (inr (short, fit, unended, same))) =
          let passes = each-check_from n flags 0 insns (λ j m insn at_m g.
            let here : j ≡ m = omega (arith, at_m) in
            (check_insn_iff n flags m insn (width j insn g)).1
              (fit m insn (subst (λ t. get_elem? insns t ≡ some insn) here g))) in
          let last : ends_in_ret insns ≡ false = no_return unended in
          do_validate-short insns flags short ∙ rw (passes, last) (ap err (sym same))
