-- ===== src/ZprExt/Net.antt =====
-- zpr-ext/src/std/net.rs and zpr-ext/src/tokio.rs: `UdpSocketExt`. The system calls are parameters,
-- on the system's state; a descriptor stands for a socket.
use zpr_utils.Base.{
  ℕ, zero, suc, ◌-◌, ◌^◌, ◌%◌, ◌≤◌, ◌<◌, ◌≡◌, ◌↔◌, refl, sym, ap, List, [], ◌∷◌, ◌++◌, length,
  Result, ok, err, arith,
}
use zpr_utils.Base.Int.{ℤ, pos, negsuc}
use zpr_utils.Base.Exec.{Exec, value, ◌>>=◌}
use zpr_utils.ZprExt.Bytes.{BufMut}

-- `as u32` of a C int.
unfoldable pub as_u32 : ℤ → ℕ
as_u32 (pos n) = n % 2 ^ 32
as_u32 (negsuc n) = 2 ^ 32 - 1 - n % 2 ^ 32

module _ {Errno IoError : Type 0} (from_errno : Errno → IoError) where
  -- `mtu` of both sockets, from what `getsockopt` returns.
  unfoldable pub mtu : Result Errno ℤ → Result IoError ℕ
  unfolding as_u32
  mtu (ok n) = ok (as_u32 n)
  mtu (err errno) = err (from_errno errno)

-- `libc::sock_fprog`: a count and a pointer to the instructions.
pub record SockFprog {ℓ} (I : Type ℓ) : Type ℓ where
  pub len : ℕ
  pub filter : List I

module _ {ℓ} {I : Type ℓ} where
  abbrev pub take : ℕ → List I → List I
  take zero xs = []
  take (suc n) [] = []
  take (suc n) (x ∷ xs) = x ∷ take n xs

  -- The instructions that a `sock_fprog` says are there.
  unfoldable pub fprog_insns : SockFprog I → List I
  fprog_insns fprog = take fprog.len fprog.filter

  -- The argument that `attach_reuse_port_cbpf` makes of a filter.
  unfoldable pub fprog_of : List I → SockFprog I
  fprog_of filter = record { len = length filter % 2 ^ 16; filter = filter }

  take-length : (xs : List I) → take (length xs) xs ≡ xs
  take-length [] = refl
  take-length (x ∷ xs) = ap (λ l. x ∷ l) (take-length xs)

  pub length-take-le : (n : ℕ) (xs : List I) → length (take n xs) ≤ n
  length-take-le zero xs = omega arith
  length-take-le (suc n) [] = omega arith
  length-take-le (suc n) (x ∷ xs) = omega (arith, length-take-le n xs)

  length-take-of_le : (n : ℕ) (xs : List I) → n ≤ length xs → length (take n xs) ≡ n
  length-take-of_le zero xs h = refl
  length-take-of_le (suc n) [] h = absurd (omega arith)
  length-take-of_le (suc n) (x ∷ xs) h = ap suc (length-take-of_le n xs (omega arith))

  take-take : (n : ℕ) (xs : List I) → take n (take n xs) ≡ take n xs
  take-take zero xs = refl
  take-take (suc n) [] = refl
  take-take (suc n) (x ∷ xs) = ap (λ l. x ∷ l) (take-take n xs)

  take-eq-whole :
      (filter : List I) → (take (length filter % 2 ^ 16) filter ≡ filter) ↔ (length filter < 2 ^ 16)
  take-eq-whole filter = (
    (λ whole.
        let few = length-take-le (length filter % 2 ^ 16) filter in
        let same : length (take (length filter % 2 ^ 16) filter) ≡ length filter =
          ap length whole in
        omega arith),
    (λ short.
        let len : length filter % 2 ^ 16 ≡ length filter = omega arith in
        rw len (take-length filter)),
  )

module _ {ℓ} {I : Type ℓ} {Os IoError : Type 0} (setsockopt : ℕ → SockFprog I → Os → Os × ℤ)
    (last_os_error : Os → IoError) where
  abbrev attached : Os × ℤ → Os × Result IoError (Unit {0})
  attached (os, pos n) = (os, ok tt)
  attached (os, negsuc n) = (os, err (last_os_error os))

  unfoldable pub attach_reuse_port_cbpf : ℕ → List I → Os → Os × Result IoError (Unit {0})
  unfolding fprog_of
  attach_reuse_port_cbpf fd filter os = attached (setsockopt fd (fprog_of filter) os)

  -- Where the system goes by the count of a `sock_fprog` and the instructions that it says are
  -- there, to attach a filter of n instructions does and returns what it does and returns for the
  -- first n % 2 ^ 16 of them; these are all of them exactly if n is less than 2 ^ 16, so a longer
  -- filter is cut, and that alone makes no error.
  pub attach_reuse_port_cbpf-take :
      ((fd : ℕ) (p q : SockFprog I) (os : Os)
        → p.len ≡ q.len
        → fprog_insns p ≡ fprog_insns q
        → setsockopt fd p os ≡ setsockopt fd q os)
      → (fd : ℕ) (filter : List I) (os : Os)
      → (attach_reuse_port_cbpf fd filter os
          ≡ attach_reuse_port_cbpf fd (take (length filter % 2 ^ 16) filter) os)
        × ((take (length filter % 2 ^ 16) filter ≡ filter) ↔ (length filter < 2 ^ 16))
  unfolding attach_reuse_port_cbpf fprog_of fprog_insns
  attach_reuse_port_cbpf-take reads fd filter os =
      let n = length filter % 2 ^ 16 in
      let le : n ≤ length filter = omega arith in
      let len : length (take n filter) ≡ n = length-take-of_le n filter le in
      let count : n ≡ length (take n filter) % 2 ^ 16 = omega arith in
      (
        ap attached (
            reads fd (record { len = n; filter = filter })
              (record { len = length (take n filter) % 2 ^ 16; filter = take n filter }) os count
              (rw (sym count) (sym (take-take n filter)))),
        take-eq-whole filter,
      )

-- `recv` and `recv_from` are given the length of a slice, and return what they wrote to its start;
-- the latter also where it came from.
abbrev pub RecvCall : Type 0 → Type 0 → Type 0 → Type 0
RecvCall Os IoError A = ℕ → ℕ → Os → Os × Result IoError A

module _ {B Os IoError : Type 0} (buf : BufMut B) where
  -- What is received goes to the buffer's next slice, and counts as written.
  abbrev received : B → Os × Result IoError (List ℕ) → Exec (Os × B × Result IoError ℕ)
  received b (os, err e) = value (os, b, err e)
  received b (os, ok sent) = do
    b' ← buf.advance_mut (length sent) (buf.store sent b)
    value (os, b', ok (length sent))

  unfoldable pub recv_buf :
      RecvCall Os IoError (List ℕ) → ℕ → B → Os → Exec (Os × B × Result IoError ℕ)
  recv_buf recv fd b os = received b (recv fd (buf.chunk_len b) os)

  abbrev received_from :
      {A : Type 0} → B → Os × Result IoError (List ℕ × A) → Exec (Os × B × Result IoError (ℕ × A))
  received_from b (os, err e) = value (os, b, err e)
  received_from b (os, ok (sent, from)) = do
    b' ← buf.advance_mut (length sent) (buf.store sent b)
    value (os, b', ok (length sent, from))

  unfoldable pub recv_buf_from :
      {A : Type 0}
      → RecvCall Os IoError (List ℕ × A)
      → ℕ
      → B
      → Os
      → Exec (Os × B × Result IoError (ℕ × A))
  recv_buf_from recv_from fd b os = received_from b (recv_from fd (buf.chunk_len b) os)

  -- If the call writes no more than it is given room for, what it returns is appended to what the
  -- buffer has been given, and its length is returned.
  pub recv_buf-written :
      (recv : RecvCall Os IoError (List ℕ))
      → ((fd n : ℕ) (os os' : Os) (sent : List ℕ) → recv fd n os ≡ (os', ok sent) → length sent ≤ n)
      → (fd : ℕ) (b : B) (os os' : Os) (sent : List ℕ)
      → recv fd (buf.chunk_len b) os ≡ (os', ok sent)
      → (b' : B) × (recv_buf recv fd b os ≡ value (os', b', ok (length sent)))
        × (buf.written b' ≡ buf.written b ++ sent)
  unfolding recv_buf
  recv_buf-written recv room fd b os os' sent e =
      let (b', advances, written) = buf.advances sent b (room fd (buf.chunk_len b) os os' sent e) in
      (b', rw (e, advances) refl, written)

  -- The same with the sender, which is returned.
  pub recv_buf_from-written :
      {A : Type 0} (recv_from : RecvCall Os IoError (List ℕ × A))
      → ((fd n : ℕ) (os os' : Os) (sent : List ℕ) (from : A)
          → recv_from fd n os ≡ (os', ok (sent, from))
          → length sent ≤ n)
      → (fd : ℕ) (b : B) (os os' : Os) (sent : List ℕ) (from : A)
      → recv_from fd (buf.chunk_len b) os ≡ (os', ok (sent, from))
      → (b' : B) × (recv_buf_from recv_from fd b os ≡ value (os', b', ok (length sent, from)))
        × (buf.written b' ≡ buf.written b ++ sent)
  unfolding recv_buf_from
  recv_buf_from-written recv_from room fd b os os' sent from e =
      let (b', advances, written) =
        buf.advances sent b (room fd (buf.chunk_len b) os os' sent from e) in
      (b', rw (e, advances) refl, written)
