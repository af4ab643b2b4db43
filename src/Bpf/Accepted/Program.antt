-- ===== src/Bpf/Accepted/Program.antt =====
-- `do_validate` accepts a program exactly when every instruction is of the described set, at its
-- place, and the last one returns.
use zpr_utils.Base.{
  ℕ, zero, suc, ◌+◌, ◌≤◌, ◌<◌, ◌^◌, ◌≡◌, ◌↔◌, inl, inr, refl, sym, ap, ◌∙◌, subst, true, false,
  some, ok, List, [], ◌∷◌, arith, ◌==◌, ==_iff, get_elem?, get_last?, length, >>-eq-ok, All,
  All-get_elem?, Option-cases,
}
use zpr_utils.Bpf.Code.{code_class, ret}
use zpr_utils.Bpf.Insn.{BpfInsn, Arm, decode}
use zpr_utils.Bpf.Validate.{check_insn, check_from, ends_in_ret, do_validate, u32_max}
use zpr_utils.Bpf.Words.{as_u32}
use zpr_utils.Bpf.Accepted.{Fits}
use zpr_utils.Bpf.Accepted.Sound.{check_insn_iff}

-- The widths of the fields.
pub record IsInsn (insn : BpfInsn) : Type 0 where
  pub code_u16 : insn.code < 2 ^ 16
  pub jt_u8 : insn.jt < 2 ^ 8
  pub jf_u8 : insn.jf < 2 ^ 8
  pub k_u32 : insn.k < 2 ^ 32

abbrev pub AreInsns : List BpfInsn → Type 0
AreInsns insns = All IsInsn insns

pub record IsAccepted (insns : List BpfInsn) (flags : ℕ) : Type 0 where
  pub short : length insns ≤ u32_max
  pub each :
      (i : ℕ) (insn : BpfInsn)
      → get_elem? insns i ≡ some insn
      → (arm : Arm) × (decode insn.code ≡ some arm) × Fits (length insns) flags i arm insn
  pub ends :
      (i : ℕ) × (insn : BpfInsn) × (length insns ≡ suc i)
      × (get_elem? insns i ≡ some insn)
      × (code_class insn.code ≡ ret)

module _ (n flags : ℕ) where
  pub check_from-each :
      (i j m : ℕ) (insns : List BpfInsn) (insn : BpfInsn)
      → m ≡ i + j
      → check_from n flags i insns ≡ ok tt
      → get_elem? insns j ≡ some insn
      → check_insn n flags m insn ≡ ok tt
  unfolding check_from
  check_from-each i j m [] insn e h g = cc
  check_from-each i zero m (x ∷ insns) insn e h g =
      let at : i ≡ m = omega arith in
      let first = (>>-eq-ok (check_insn n flags i x) (check_from n flags (i + 1) insns) h).0 in
      let same : x ≡ insn = cc in
      subst (λ v. check_insn n flags m v ≡ ok tt) same
        (subst (λ v. check_insn n flags v x ≡ ok tt) at first)
  check_from-each i (suc j) m (x ∷ insns) insn e h g =
      check_from-each (i + 1) j m insns insn (omega arith)
        (>>-eq-ok (check_insn n flags i x) (check_from n flags (i + 1) insns) h).1 g

  pub each-check_from :
      (i : ℕ) (insns : List BpfInsn)
      → ((j m : ℕ) (insn : BpfInsn)
          → m ≡ i + j
          → get_elem? insns j ≡ some insn
          → check_insn n flags m insn ≡ ok tt)
      → check_from n flags i insns ≡ ok tt
  unfolding check_from
  each-check_from i [] h = refl
  each-check_from i (x ∷ insns) h =
      rw (h 0 i x (omega arith) refl)
        (each-check_from (i + 1) insns (λ j m insn e g. h (suc j) m insn (omega arith) g))

get_last?-index :
    {A : Type 0} (xs : List A) (a : A)
    → get_last? xs ≡ some a
    → (i : ℕ) × (length xs ≡ suc i) × (get_elem? xs i ≡ some a)
get_last?-index [] a e = cc
get_last?-index (x ∷ []) a e = (0, refl, e)
get_last?-index (x ∷ y ∷ xs) a e =
    let (i, l, g) = get_last?-index (y ∷ xs) a e in (suc i, ap suc l, g)

index-get_last? :
    {A : Type 0} (xs : List A) (i : ℕ) → length xs ≡ suc i → get_last? xs ≡ get_elem? xs i
index-get_last? [] i e = absurd (omega arith)
index-get_last? (x ∷ []) zero e = refl
index-get_last? (x ∷ []) (suc i) e = absurd (omega arith)
index-get_last? (x ∷ y ∷ xs) zero e = absurd (omega arith)
index-get_last? (x ∷ y ∷ xs) (suc i) e = index-get_last? (y ∷ xs) i (omega arith)

abbrev pub EndsInRet : List BpfInsn → Type 0
EndsInRet insns =
    (i : ℕ) × (insn : BpfInsn) × (length insns ≡ suc i)
    × (get_elem? insns i ≡ some insn)
    × (code_class insn.code ≡ ret)

pub ends_in_ret-EndsInRet : (insns : List BpfInsn) → ends_in_ret insns ≡ true → EndsInRet insns
unfolding ends_in_ret
ends_in_ret-EndsInRet insns h = elim (Option-cases (get_last? insns)) [
  | inl e ↦ let no_last : false ≡ true = rw (e, ends_in_ret) at h in cc
  | inr (insn, e) ↦
      let (i, l, g) = get_last?-index insns insn e in
      let class : (code_class insn.code == ret) ≡ true = rw (e, ends_in_ret) at h in
      (i, insn, l, g, (==_iff (code_class insn.code) ret).0 class)
]

pub EndsInRet-ends_in_ret : (insns : List BpfInsn) → EndsInRet insns → ends_in_ret insns ≡ true
unfolding ends_in_ret
EndsInRet-ends_in_ret insns (i, insn, l, g, c) =
    let e : get_last? insns ≡ some insn = index-get_last? insns i l ∙ g in
    rw (e, ends_in_ret) ((==_iff (code_class insn.code) ret).1 c)

-- The parts of a validation.
abbrev Passes : List BpfInsn → ℕ → ℕ → Type 0
Passes insns flags n =
    (length insns ≤ u32_max) × (check_from n flags 0 insns ≡ ok tt) × (ends_in_ret insns ≡ true)

do_validate-parts :
    (insns : List BpfInsn) (flags : ℕ)
    → (do_validate insns flags ≡ ok tt) ↔ Passes insns flags (as_u32 (length insns))
unfolding do_validate
do_validate-parts insns flags = (λ h. ground arith, λ h. ground arith)

do_validate-Passes :
    (insns : List BpfInsn) (flags : ℕ)
    → (do_validate insns flags ≡ ok tt) ↔ Passes insns flags (length insns)
do_validate-Passes insns flags = (
  λ h.
      let p = (do_validate-parts insns flags).0 h in
      subst (Passes insns flags) (as_u32_length p.0) p,
  λ p. (do_validate-parts insns flags).1 (subst (Passes insns flags) (sym (as_u32_length p.0)) p),
)
  where
    as_u32_length : length insns ≤ u32_max → as_u32 (length insns) ≡ length insns
    as_u32_length h = omega arith

-- On instructions of the declared widths, validation succeeds exactly on the accepted programs.
pub do_validate_iff :
    (insns : List BpfInsn) (flags : ℕ)
    → AreInsns insns
    → (do_validate insns flags ≡ ok tt) ↔ IsAccepted insns flags
do_validate_iff insns flags widths = (forth, back)
  where
    width : (i : ℕ) (insn : BpfInsn) → get_elem? insns i ≡ some insn → insn.code < 65536
    width i insn g = (All-get_elem? IsInsn insns i widths g).code_u16

    forth : do_validate insns flags ≡ ok tt → IsAccepted insns flags
    forth h =
        let p = (do_validate-Passes insns flags).0 h in
        record {
          short = p.0;
          each = λ i insn g.
              (check_insn_iff (length insns) flags i insn (width i insn g)).0
                (check_from-each (length insns) flags 0 i i insns insn (omega arith) p.1 g);
          ends = ends_in_ret-EndsInRet insns p.2;
        }

    placed :
        IsAccepted insns flags
        → (j m : ℕ) (insn : BpfInsn) → m ≡ 0 + j
        → get_elem? insns j ≡ some insn
        → check_insn (length insns) flags m insn ≡ ok tt
    placed v j m insn e g =
        let same : j ≡ m = omega arith in
        (check_insn_iff (length insns) flags m insn (width j insn g)).1
          (v.each m insn (subst (λ t. get_elem? insns t ≡ some insn) same g))

    back : IsAccepted insns flags → do_validate insns flags ≡ ok tt
    back v = (do_validate-Passes insns flags).1 (
      v.short,
      each-check_from (length insns) flags 0 insns (placed v),
      EndsInRet-ends_in_ret insns v.ends,
    )
