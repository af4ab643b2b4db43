-- ===== src/Bpf/Words.antt =====
-- cbpf-rs/src/lib.rs: `load_byte`, `load_halfword`, `load_word`, and the u32 arithmetic of the
-- machine. A packet is the list of its bytes; an unchecked read out of range is `none`.
use zpr_utils.Base.{
  ℕ, ◌+◌, ◌-◌, ◌*◌, ◌/◌, ◌%◌, ◌^◌, bit_or, Option, none, some, List, ltb, if◌then◌else◌, get_elem?,
}

-- Arithmetic on u32.
abbrev pub as_u32 : ℕ → ℕ
as_u32 n = n % 2 ^ 32

abbrev pub wrapping_add : ℕ → ℕ → ℕ
wrapping_add m n = (m + n) % 2 ^ 32

abbrev pub wrapping_sub : ℕ → ℕ → ℕ
wrapping_sub m n = (m + 2 ^ 32 - n) % 2 ^ 32

abbrev pub wrapping_mul : ℕ → ℕ → ℕ
wrapping_mul m n = (m * n) % 2 ^ 32

abbrev pub wrapping_neg : ℕ → ℕ
wrapping_neg m = (2 ^ 32 - m) % 2 ^ 32

abbrev pub shl32 : ℕ → ℕ → ℕ
shl32 m k = (m * 2 ^ k) % 2 ^ 32

abbrev pub shr32 : ℕ → ℕ → ℕ
shr32 m k = m / 2 ^ k

-- `u32::unchecked_add`; `none` on overflow.
abbrev pub unchecked_add : ℕ → ℕ → Option ℕ
unchecked_add m n = if ltb (m + n) (2 ^ 32) then some (m + n) else none

abbrev pub then_load : Option ℕ → (ℕ → Option ℕ) → Option ℕ
then_load none f = none
then_load (some v) f = f v

unfoldable pub load_byte : List ℕ → ℕ → Option ℕ
load_byte packet addr = get_elem? packet addr

unfoldable pub load_halfword : List ℕ → ℕ → Option ℕ
load_halfword packet addr =
    then_load (get_elem? packet addr)
      λ b0. then_load (get_elem? packet (addr + 1)) λ b1. some (bit_or (shl32 b0 8) b1)

unfoldable pub load_word : List ℕ → ℕ → Option ℕ
load_word packet addr = then_load (get_elem? packet addr) λ b0.
    then_load (get_elem? packet (addr + 1)) λ b1. then_load (get_elem? packet (addr + 2)) λ b2.
      then_load (get_elem? packet (addr + 3))
        λ b3. some (bit_or (bit_or (bit_or (shl32 b0 24) (shl32 b1 16)) (shl32 b2 8)) b3)
