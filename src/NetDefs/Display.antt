-- ===== src/NetDefs/Display.antt =====
-- zpr-utils/src/net_defs.rs: how addresses with a scope are written. The texts that std writes for
-- addresses and numbers are an interface; a text is the list of its bytes.
use zpr_utils.Base.{
  ℕ, ◌≡◌, ◌≢◌, ◌⊎◌, refl, sym, ap, ap₂, ◌∙◌, Bool-cases, inl, inr, not, List, [], ◌∷◌, ◌++◌, ◌==◌,
  if◌then◌else◌, All, arith,
}
use zpr_utils.NetDefs.Address.{Ipv4Addr, Ipv6Addr, IpAddress, to_ipv6}
use zpr_utils.NetDefs.Scoped.{ScopedIpv6Addr, ScopedIpAddr, v4, v6}

abbrev pub HasNoPercent : List ℕ → Type 0
HasNoPercent text = All (λ c. c ≢ b'%') text

-- std's `Display`: different addresses and numbers have different texts, none with a percent sign.
pub record Display : Type 0 where
  pub fmt_ipv4 : Ipv4Addr → List ℕ
  pub fmt_ipv6 : Ipv6Addr → List ℕ
  pub fmt_u32 : ℕ → List ℕ
  pub ipv4_injective : (a b : Ipv4Addr) → fmt_ipv4 a ≡ fmt_ipv4 b → a ≡ b
  pub ipv6_injective : (a b : Ipv6Addr) → fmt_ipv6 a ≡ fmt_ipv6 b → a ≡ b
  pub u32_injective : (m n : ℕ) → fmt_u32 m ≡ fmt_u32 n → m ≡ n
  pub families_differ : (a : Ipv4Addr) (b : Ipv6Addr) → fmt_ipv4 a ≢ fmt_ipv6 b
  pub ipv4_plain : (a : Ipv4Addr) → HasNoPercent (fmt_ipv4 a)
  pub ipv6_plain : (a : Ipv6Addr) → HasNoPercent (fmt_ipv6 a)

module _ (std : Display) where
  unfoldable pub address_fmt : IpAddress → List ℕ
  unfolding to_ipv6
  address_fmt a = std.fmt_ipv6 (to_ipv6 a)

  unfoldable pub scoped_ipv6_fmt : ScopedIpv6Addr → List ℕ
  scoped_ipv6_fmt a =
      if not (a.scope_id == 0)
      then std.fmt_ipv6 a.ip ++ b'%' ∷ std.fmt_u32 a.scope_id
      else std.fmt_ipv6 a.ip

  unfoldable pub scoped_fmt : ScopedIpAddr → List ℕ
  unfolding scoped_ipv6_fmt
  scoped_fmt (v4 a) = std.fmt_ipv4 a
  scoped_fmt (v6 a) = scoped_ipv6_fmt a

-- A text is what stands before the first percent sign, and what stands behind it.
percent-absent : (xs ys rest : List ℕ) → HasNoPercent xs → xs ≢ ys ++ b'%' ∷ rest
percent-absent [] [] rest plain e = cc
percent-absent [] (y ∷ ys) rest plain e = cc
percent-absent (x ∷ xs) [] rest plain e = plain.0 cc
percent-absent (x ∷ xs) (y ∷ ys) rest plain e = percent-absent xs ys rest plain.1 cc

percent-first :
    (xs ys rest rest' : List ℕ)
    → HasNoPercent xs
    → HasNoPercent ys
    → xs ++ b'%' ∷ rest ≡ ys ++ b'%' ∷ rest'
    → (xs ≡ ys) × (rest ≡ rest')
percent-first [] [] rest rest' plain plain' e = (refl, cc)
percent-first [] (y ∷ ys) rest rest' plain plain' e = absurd (plain'.0 cc)
percent-first (x ∷ xs) [] rest rest' plain plain' e = absurd (plain.0 cc)
percent-first (x ∷ xs) (y ∷ ys) rest rest' plain plain' e =
    let same : x ≡ y = cc in
    let tails : xs ++ b'%' ∷ rest ≡ ys ++ b'%' ∷ rest' = cc in
    let (fronts, backs) = percent-first xs ys rest rest' plain.1 plain'.1 tails in
    (ap₂ (λ (h : ℕ) (t : List ℕ). h ∷ t) same fronts, backs)

module _ (std : Display) where
  scoped_ipv6_fmt-cases :
      (a : ScopedIpv6Addr)
      → ((a.scope_id ≡ 0) × (scoped_ipv6_fmt std a ≡ std.fmt_ipv6 a.ip))
        ⊎ (scoped_ipv6_fmt std a ≡ std.fmt_ipv6 a.ip ++ b'%' ∷ std.fmt_u32 a.scope_id)
  unfolding scoped_ipv6_fmt
  scoped_ipv6_fmt-cases a = elim (Bool-cases (a.scope_id == 0)) [
    | inl zero_scope ↦ inl (ground arith, rw zero_scope refl)
    | inr scoped ↦ inr (rw scoped refl)
  ]

  same_scoped :
      (a b : ScopedIpv6Addr)
      → std.fmt_ipv6 a.ip ≡ std.fmt_ipv6 b.ip
      → a.scope_id ≡ b.scope_id
      → a ≡ b
  same_scoped a b texts scopes =
      ap₂ (λ (i : Ipv6Addr) (n : ℕ). record { ip = i; scope_id = n })
        (std.ipv6_injective a.ip b.ip texts) scopes

  scoped_ipv6_fmt-injective :
      (a b : ScopedIpv6Addr) → scoped_ipv6_fmt std a ≡ scoped_ipv6_fmt std b → a ≡ b
  scoped_ipv6_fmt-injective a b e = elim (scoped_ipv6_fmt-cases a) [
    | inl (none_a, text_a) ↦ elim (scoped_ipv6_fmt-cases b) [
      | inl (none_b, text_b) ↦ same_scoped a b (sym text_a ∙ e ∙ text_b) (none_a ∙ sym none_b)
      | inr text_b ↦ absurd (
          percent-absent (std.fmt_ipv6 a.ip) (std.fmt_ipv6 b.ip) (std.fmt_u32 b.scope_id)
            (std.ipv6_plain a.ip) (sym text_a ∙ e ∙ text_b))
    ]
    | inr text_a ↦ elim (scoped_ipv6_fmt-cases b) [
      | inl (none_b, text_b) ↦ absurd (
          percent-absent (std.fmt_ipv6 b.ip) (std.fmt_ipv6 a.ip) (std.fmt_u32 a.scope_id)
            (std.ipv6_plain b.ip) (sym text_b ∙ sym e ∙ text_a))
      | inr text_b ↦
          let (texts, scopes) =
            percent-first (std.fmt_ipv6 a.ip) (std.fmt_ipv6 b.ip) (std.fmt_u32 a.scope_id)
              (std.fmt_u32 b.scope_id) (std.ipv6_plain a.ip) (std.ipv6_plain b.ip)
              (sym text_a ∙ e ∙ text_b) in
          same_scoped a b texts (std.u32_injective a.scope_id b.scope_id scopes)
    ]
  ]

  families_apart : (a : Ipv4Addr) (b : ScopedIpv6Addr) → std.fmt_ipv4 a ≢ scoped_ipv6_fmt std b
  families_apart a b e = elim (scoped_ipv6_fmt-cases b) [
    | inl (none_b, text_b) ↦ std.families_differ a b.ip (e ∙ text_b)
    | inr text_b ↦
        percent-absent (std.fmt_ipv4 a) (std.fmt_ipv6 b.ip) (std.fmt_u32 b.scope_id)
          (std.ipv4_plain a) (e ∙ text_b)
  ]

  -- If std writes different texts for different addresses and numbers, none with a percent sign,
  -- different addresses with a scope are written differently, of either family.
  pub scoped_fmt-injective : (a b : ScopedIpAddr) → scoped_fmt std a ≡ scoped_fmt std b → a ≡ b
  unfolding scoped_fmt
  scoped_fmt-injective (v4 a) (v4 b) e = ap (λ t. v4 t) (std.ipv4_injective a b e)
  scoped_fmt-injective (v4 a) (v6 b) e = absurd (families_apart a b e)
  scoped_fmt-injective (v6 a) (v4 b) e = absurd (families_apart b a (sym e))
  scoped_fmt-injective (v6 a) (v6 b) e = ap (λ t. v6 t) (scoped_ipv6_fmt-injective a b e)
