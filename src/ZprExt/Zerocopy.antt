-- ===== src/ZprExt/Zerocopy.antt =====
-- zpr-ext/src/zerocopy.rs: values written to a `BufMut` and read from a `Buf`. What zerocopy knows
-- of a type is an interface: its size, the bytes of a value, and the value of some bytes.
use mathlib.Core.List.{append_assoc, append_cancel_left}
use zpr_utils.Base.{
  ℕ, ◌≤◌, ◌<◌, ◌≡◌, ◌⊎◌, inl, inr, refl, sym, ap, ◌∙◌, Bool-cases, true, false, List, ◌++◌, length,
  length-append, ltb, if◌then◌else◌, Result, ok, err, arith,
}
use zpr_utils.Base.Exec.{Exec, value, ◌>>=◌}
use zpr_utils.ZprExt.Bytes.{Buf, BufMut, copy_to_maybe_uninit_slice_mut}

pub record Zerocopy (T : Type 0) : Type 0 where
  pub size_of : ℕ
  pub new_zeroed : T
  pub as_bytes : T → List ℕ
  pub from_bytes : List ℕ → T
  pub as_bytes_size : (t : T) → length (as_bytes t) ≡ size_of
  pub from_as : (t : T) → from_bytes (as_bytes t) ≡ t

-- The error says nothing.
pub data SizeError : Type 0 where
  size_error : SizeError

module _ {T B : Type 0} (layout : Zerocopy T) (buf : BufMut B) where
  unfoldable pub write_to_buf : T → B → Exec (B × Result SizeError (Unit {0}))
  write_to_buf t b =
      let bytes = layout.as_bytes t in
      if ltb (buf.remaining_mut b) (length bytes)
      then value (b, err size_error)
      else (do b' ← buf.put bytes b; value (b', ok tt))

module _ {T B : Type 0} (layout : Zerocopy T) (buf : Buf B) where
  -- The bytes of a value, to be overwritten.
  abbrev pub as_uninit_bytes_mut : T → List ℕ
  as_uninit_bytes_mut t = layout.as_bytes t

  unfoldable pub read_from_buf : B → Exec (B × Result SizeError T)
  unfolding copy_to_maybe_uninit_slice_mut
  read_from_buf b = if ltb (buf.remaining b) layout.size_of then value (b, err size_error) else (do
    read ← copy_to_maybe_uninit_slice_mut buf (as_uninit_bytes_mut layout.new_zeroed) b
    value (read.1, ok (layout.from_bytes read.0)))

module _ {T W R : Type 0} (layout : Zerocopy T) (out : BufMut W) (buf : Buf R) where
  -- Writing reports too little room and leaves the buffer as it is, or appends the value's bytes.
  pub write_to_buf-cases :
      (t : T) (w : W)
      → ((out.remaining_mut w < layout.size_of)
          × (write_to_buf layout out t w ≡ value (w, err size_error)))
        ⊎ ((layout.size_of ≤ out.remaining_mut w)
            × (w' : W) × (write_to_buf layout out t w ≡ value (w', ok tt))
            × (out.written w' ≡ out.written w ++ layout.as_bytes t))
  unfolding write_to_buf
  write_to_buf-cases t w =
      let size = layout.as_bytes_size t in
      elim (Bool-cases (ltb (out.remaining_mut w) (length (layout.as_bytes t)))) [
        | inl short ↦ inl (ground arith, rw short refl)
        | inr fits ↦
            let room : length (layout.as_bytes t) ≤ out.remaining_mut w = ground arith in
            let (w', puts, written) = out.puts (layout.as_bytes t) w room in
            inr (omega arith, w', rw (fits, puts) refl, written)
      ]

  -- The same for reading: too few bytes are an error that leaves them, whatever they are.
  pub read_from_buf-short :
      (b : R)
      → length (buf.bytes b) < layout.size_of
      → read_from_buf layout buf b ≡ value (b, err size_error)
  unfolding read_from_buf
  read_from_buf-short b short =
      let held = buf.remaining_bytes b in
      let test : ltb (buf.remaining b) layout.size_of ≡ true = ground arith in rw test refl

  pub read_from_buf-front :
      (t : T) (rest : List ℕ) (b : R)
      → buf.bytes b ≡ layout.as_bytes t ++ rest
      → (b' : R) × (read_from_buf layout buf b ≡ value (b', ok t)) × (buf.bytes b' ≡ rest)
  unfolding read_from_buf copy_to_maybe_uninit_slice_mut
  read_from_buf-front t rest b e =
      let held = buf.remaining_bytes b ∙ ap length e ∙ length-append (layout.as_bytes t) rest in
      let size = layout.as_bytes_size t in
      let zeroed = layout.as_bytes_size layout.new_zeroed in
      let test : ltb (buf.remaining b) layout.size_of ≡ false = ground arith in
      let (b', copies, left) =
        buf.copies (layout.as_bytes layout.new_zeroed) (layout.as_bytes t) rest b e
          (zeroed ∙ sym size) in
      (b', rw (test, copies, layout.from_as t) refl, left)

  -- A value that was written with success is read back, with what follows it left, from any buffer
  -- whose bytes are those written from that place on, and what follows them.
  pub write_to_buf-read_from_buf :
      (t : T) (w w' : W) (rest : List ℕ) (b : R)
      → write_to_buf layout out t w ≡ value (w', ok tt)
      → out.written w ++ buf.bytes b ≡ out.written w' ++ rest
      → (b' : R) × (read_from_buf layout buf b ≡ value (b', ok t)) × (buf.bytes b' ≡ rest)
  write_to_buf-read_from_buf t w w' rest b runs same = elim (write_to_buf-cases t w) [
    | inl (short, fails) ↦ cc
    | inr (fits, w'', done, written) ↦
        let one : w'' ≡ w' = cc in
        let split : out.written w' ≡ out.written w ++ layout.as_bytes t = cc in
        read_from_buf-front t rest b (
          append_cancel_left (out.written w) _ _ (
            same
            ∙ ap (λ l. l ++ rest) split
            ∙ append_assoc (out.written w) (layout.as_bytes t) rest))
  ]
