-- ===== src/Bpf/Loads.antt =====
-- The packet loads: in range they succeed, and give the big-endian value of the bytes.
use zpr_utils.Base.{
  ℕ, ◌+◌, ◌*◌, ◌^◌, ◌≤◌, ◌<◌, ◌≡◌, refl, ap, bit_or, sym, ◌∙◌, Option, none, some, List, arith,
  length, get_elem?, get_elem?-of_lt, All, All-get_elem?,
}
use zpr_utils.Base.Bits.{bit_or_fields}
use zpr_utils.Bpf.Words.{shl32, then_load, load_byte, load_halfword, load_word}

module _ (packet : List ℕ) (addr : ℕ) where
  pub load_byte-some : addr < length packet → (v : ℕ) × (load_byte packet addr ≡ some v)
  unfolding load_byte
  load_byte-some h = get_elem?-of_lt packet addr h

  pub load_halfword-some : addr + 2 ≤ length packet → (v : ℕ) × (load_halfword packet addr ≡ some v)
  unfolding load_halfword
  load_halfword-some h =
      let (b0, e0) = get_elem?-of_lt packet addr (omega arith) in
      let (b1, e1) = get_elem?-of_lt packet (addr + 1) (omega arith) in
      (bit_or (shl32 b0 8) b1, rw (e0, e1))

  pub load_word-some : addr + 4 ≤ length packet → (v : ℕ) × (load_word packet addr ≡ some v)
  unfolding load_word
  load_word-some h =
      let (b0, e0) = get_elem?-of_lt packet addr (omega arith) in
      let (b1, e1) = get_elem?-of_lt packet (addr + 1) (omega arith) in
      let (b2, e2) = get_elem?-of_lt packet (addr + 2) (omega arith) in
      let (b3, e3) = get_elem?-of_lt packet (addr + 3) (omega arith) in
      (bit_or (bit_or (bit_or (shl32 b0 24) (shl32 b1 16)) (shl32 b2 8)) b3, rw (e0, e1, e2, e3))

abbrev pub IsByte : ℕ → Type 0
IsByte b = b < 256

-- A packet is made of bytes.
abbrev pub IsPacket : List ℕ → Type 0
IsPacket packet = All IsByte packet

spell :
    (b0 b1 b2 b3 : ℕ)
    → b0 < 256
    → b1 < 256
    → b2 < 256
    → b3 < 256
    → bit_or (bit_or (bit_or (shl32 b0 24) (shl32 b1 16)) (shl32 b2 8)) b3
      ≡ ((b0 * 2 ^ 8 + b1) * 2 ^ 8 + b2) * 2 ^ 8 + b3
spell b0 b1 b2 b3 h0 h1 h2 h3 =
    let s0 : shl32 b0 24 ≡ b0 * 2 ^ 24 = omega arith in
    let s1 : shl32 b1 16 ≡ b1 * 2 ^ 16 = omega arith in
    let s2 : shl32 b2 8 ≡ b2 * 2 ^ 8 = omega arith in
    let high : ℕ = b0 * 2 ^ 8 + b1 in
    let first : bit_or (b0 * 2 ^ 24) (b1 * 2 ^ 16) ≡ high * 2 ^ 16 =
      bit_or_fields 24 b0 (b1 * 2 ^ 16) (omega arith) ∙ omega arith in
    let second : bit_or (high * 2 ^ 16) (b2 * 2 ^ 8) ≡ (high * 2 ^ 8 + b2) * 2 ^ 8 =
      bit_or_fields 16 high (b2 * 2 ^ 8) (omega arith) ∙ omega arith in
    rw (s0, s1, s2, first, second) (bit_or_fields 8 (high * 2 ^ 8 + b2) b3 h3)

module _ (packet : List ℕ) (bytes : IsPacket packet) (addr : ℕ) where
  byte_at : (i : ℕ) {b : ℕ} → get_elem? packet i ≡ some b → b < 256
  byte_at i = All-get_elem? IsByte packet i bytes

  -- Two bytes in range load as the number that they spell in network order.
  pub load_halfword-big_endian :
      (b0 b1 : ℕ)
      → get_elem? packet addr ≡ some b0
      → get_elem? packet (addr + 1) ≡ some b1
      → load_halfword packet addr ≡ some (b0 * 2 ^ 8 + b1)
  unfolding load_halfword
  load_halfword-big_endian b0 b1 e0 e1 =
      let small0 = byte_at addr e0 in
      let small1 = byte_at (addr + 1) e1 in
      let whole : shl32 b0 8 ≡ b0 * 2 ^ 8 = omega arith in
      rw (e0, e1, whole) (ap some (bit_or_fields 8 b0 b1 small1))

  -- In a packet of bytes, four in range load as the number that they spell in network order.
  pub load_word-big_endian :
      (b0 b1 b2 b3 : ℕ)
      → get_elem? packet addr ≡ some b0
      → get_elem? packet (addr + 1) ≡ some b1
      → get_elem? packet (addr + 2) ≡ some b2
      → get_elem? packet (addr + 3) ≡ some b3
      → load_word packet addr ≡ some (((b0 * 2 ^ 8 + b1) * 2 ^ 8 + b2) * 2 ^ 8 + b3)
  unfolding load_word
  load_word-big_endian b0 b1 b2 b3 e0 e1 e2 e3 =
      let small0 = byte_at addr e0 in
      let small1 = byte_at (addr + 1) e1 in
      let small2 = byte_at (addr + 2) e2 in
      let small3 = byte_at (addr + 3) e3 in
      rw (e0, e1, e2, e3) (ap some (spell b0 b1 b2 b3 small0 small1 small2 small3))

halfword_parts :
    (o0 o1 : Option ℕ) (f : ℕ → ℕ → ℕ) {v : ℕ}
    → then_load o0 (λ b0. then_load o1 (λ b1. some (f b0 b1))) ≡ some v
    → (b0 b1 : ℕ) × (o0 ≡ some b0) × (o1 ≡ some b1)
halfword_parts none o1 f e = cc
halfword_parts (some b0) none f e = cc
halfword_parts (some b0) (some b1) f e = (b0, b1, refl, refl)

word_parts :
    (o0 o1 o2 o3 : Option ℕ) (f : ℕ → ℕ → ℕ → ℕ → ℕ) {v : ℕ}
    → then_load o0
        (λ b0. then_load o1 (λ b1. then_load o2 (λ b2. then_load o3 (λ b3. some (f b0 b1 b2 b3)))))
      ≡ some v
    → (b0 b1 b2 b3 : ℕ) × (o0 ≡ some b0) × (o1 ≡ some b1) × (o2 ≡ some b2) × (o3 ≡ some b3)
word_parts none o1 o2 o3 f e = cc
word_parts (some b0) none o2 o3 f e = cc
word_parts (some b0) (some b1) none o3 f e = cc
word_parts (some b0) (some b1) (some b2) none f e = cc
word_parts (some b0) (some b1) (some b2) (some b3) f e = (b0, b1, b2, b3, refl, refl, refl, refl)

-- A load is a u32.
module _ (packet : List ℕ) (bytes : IsPacket packet) (addr : ℕ) where
  byte_lt : (i : ℕ) {b : ℕ} → get_elem? packet i ≡ some b → b < 256
  byte_lt i = All-get_elem? IsByte packet i bytes

  pub load_byte-lt : {v : ℕ} → load_byte packet addr ≡ some v → v < 2 ^ 32
  unfolding load_byte
  load_byte-lt e = let h = byte_lt addr e in omega arith

  pub load_halfword-lt : {v : ℕ} → load_halfword packet addr ≡ some v → v < 2 ^ 32
  unfolding load_halfword
  load_halfword-lt {v} e =
      let (b0, b1, e0, e1) =
        halfword_parts (get_elem? packet addr) (get_elem? packet (addr + 1))
          (λ b0 b1. bit_or (shl32 b0 8) b1) e in
      let h0 = byte_lt addr e0 in
      let h1 = byte_lt (addr + 1) e1 in
      let same = sym (load_halfword-big_endian packet bytes addr b0 b1 e0 e1) ∙ e in
      let value : b0 * 2 ^ 8 + b1 ≡ v = cc in omega arith

  pub load_word-lt : {v : ℕ} → load_word packet addr ≡ some v → v < 2 ^ 32
  unfolding load_word
  load_word-lt {v} e =
      let (b0, b1, b2, b3, e0, e1, e2, e3) =
        word_parts (get_elem? packet addr) (get_elem? packet (addr + 1))
          (get_elem? packet (addr + 2)) (get_elem? packet (addr + 3))
          (λ b0 b1 b2 b3. bit_or (bit_or (bit_or (shl32 b0 24) (shl32 b1 16)) (shl32 b2 8)) b3) e in
      let h0 = byte_lt addr e0 in
      let h1 = byte_lt (addr + 1) e1 in
      let h2 = byte_lt (addr + 2) e2 in
      let h3 = byte_lt (addr + 3) e3 in
      let same = sym (load_word-big_endian packet bytes addr b0 b1 b2 b3 e0 e1 e2 e3) ∙ e in
      let value : ((b0 * 2 ^ 8 + b1) * 2 ^ 8 + b2) * 2 ^ 8 + b3 ≡ v = cc in omega arith
