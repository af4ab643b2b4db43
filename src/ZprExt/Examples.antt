-- ===== src/ZprExt/Examples.antt =====
-- Concrete runs: a descriptor sent with a buffer that is too small for it, values written and read,
-- a datagram, and a filter.
use zpr_utils.Base.{
  ℕ, ◌+◌, ◌*◌, ◌/◌, ◌%◌, ltb, leb, ◌&&◌, if◌then◌else◌, ◌^◌, ◌≤◌, ◌<◌, ◌≡◌, ◌↔◌, refl, ap, List, [],
  ◌∷◌, length, Result, ok, replicate, ◌++◌, arith,
}
use zpr_utils.Base.Exec.{Exec, value, panic, undefined, ◌>>=◌}
use zpr_utils.ZprExt.Fd.{borrowed, as_fd}
use zpr_utils.Base.Int.{ℤ, pos, negsuc}
use zpr_utils.ZprExt.Ancillary.{SocketAncillary, Cmsg, uds_send_vectored_with_ancillary}
use zpr_utils.ZprExt.Bytes.{Buf, BufMut}
use zpr_utils.ZprExt.Zerocopy.{Zerocopy, write_to_buf, read_from_buf, write_to_buf-read_from_buf}
use zpr_utils.ZprExt.Net.{
  RecvCall, take, length-take-le, recv_buf_from, recv_buf_from-written, fprog_insns, SockFprog,
  attach_reuse_port_cbpf, attach_reuse_port_cbpf-take,
}

-- The control messages of a 64-bit Linux: a header of sixteen bytes, four bytes for a descriptor,
-- and padding to a multiple of eight.
four_bytes : List ℕ → List ℕ
four_bytes [] = []
four_bytes (fd ∷ fds) = fd ∷ 0 ∷ 0 ∷ 0 ∷ four_bytes fds

abbrev linux : Cmsg
unfolding four_bytes
linux = record {
  cmsg_len = λ n. 16 + n;
  cmsg_space = λ n. 16 + (n + 7) / 8 * 8;
  align = 8;
  rights_header = λ n. n ∷ replicate 15 0;
  raw_fds = four_bytes;
}

abbrev send_all : ℕ → List (List ℕ) → List ℕ → Unit {0} → Unit {0} × Result (Unit {0}) ℕ
send_all fd bufs control os = (tt, ok (length bufs))

-- One descriptor, an aligned buffer, and one byte less than it takes.
abbrev one_fd : SocketAncillary
one_fd = record { address = 4096; buffer = replicate 23 0; fds = borrowed 5 ∷ [] }

overflows :
    uds_send_vectored_with_ancillary linux send_all (λ os. tt) 3 ((1 ∷ []) ∷ []) one_fd tt
    ≡ undefined
unfolding uds_send_vectored_with_ancillary as_fd linux four_bytes
overflows = refl

-- A buffer to read from is what is left of it.
take_front : List ℕ → List ℕ → Exec (List ℕ × List ℕ)
take_front [] b = value ([], b)
take_front (d ∷ dst) [] = panic
take_front (d ∷ dst) (x ∷ b) = do r ← take_front dst b; value (x ∷ r.0, r.1)

take_front-copies :
    (dst front rest b : List ℕ)
    → b ≡ front ++ rest
    → length dst ≡ length front
    → (b' : List ℕ) × (take_front dst b ≡ value (front, b')) × (b' ≡ rest)
unfolding take_front
take_front-copies [] [] rest b e len = (b, refl, e)
take_front-copies [] (x ∷ front) rest b e len = absurd (omega arith)
take_front-copies (d ∷ dst) [] rest b e len = absurd (omega arith)
take_front-copies (d ∷ dst) (x ∷ front) rest [] e len = cc
take_front-copies (d ∷ dst) (x ∷ front) rest (y ∷ b) e len =
    let same : y ≡ x = cc in
    let tail : b ≡ front ++ rest = cc in
    let fewer : length dst ≡ length front = omega arith in
    let (b', runs, left) = take_front-copies dst front rest b tail fewer in
    (b', rw (runs, same) refl, left)

take_front-panics : (dst b : List ℕ) → length b < length dst → take_front dst b ≡ panic
unfolding take_front
take_front-panics [] b h = absurd (omega arith)
take_front-panics (d ∷ dst) [] h = refl
take_front-panics (d ∷ dst) (x ∷ b) h = rw (take_front-panics dst b (omega arith)) refl

abbrev slice : Buf (List ℕ)
slice = record {
  remaining = length;
  copy_to_slice = take_front;
  bytes = λ b. b;
  remaining_bytes = λ b. refl;
  copies = take_front-copies;
  panics = λ dst b h. take_front-panics dst b h;
}

-- A buffer to write to, with room without bounds; what is stored behind it is at its right.
abbrev vec : BufMut (List ℕ × List ℕ)
vec = record {
  remaining_mut = λ b. 2 ^ 63;
  put = λ src b. value (b.0 ++ src, b.1);
  chunk_len = λ b. 64;
  store = λ src b. (b.0, src);
  advance_mut = λ n b. value (b.0 ++ b.1, []);
  written = λ b. b.0;
  puts = λ src b h. ((b.0 ++ src, b.1), refl, refl);
  advances = λ src b h. ((b.0 ++ src, []), refl, refl);
}

of_bytes : List ℕ → ℕ × ℕ
of_bytes (a ∷ b ∷ bytes) = (a, b)
of_bytes bytes = (0, 0)

abbrev pair : Zerocopy (ℕ × ℕ)
unfolding of_bytes
pair = record {
  size_of = 2;
  new_zeroed = (0, 0);
  as_bytes = λ t. t.0 ∷ t.1 ∷ [];
  from_bytes = of_bytes;
  as_bytes_size = λ t. refl;
  from_as = λ t. refl;
}

write_to_buf-read_from_buf_example :
    (b' : List ℕ) × (read_from_buf pair slice (7 ∷ 8 ∷ 9 ∷ []) ≡ value (b', ok (7, 8)))
    × (b' ≡ 9 ∷ [])
unfolding write_to_buf pair
write_to_buf-read_from_buf_example =
    write_to_buf-read_from_buf pair vec slice (7, 8) (5 ∷ [], []) (5 ∷ 7 ∷ 8 ∷ [], []) (9 ∷ [])
      (7 ∷ 8 ∷ 9 ∷ []) refl refl

-- A datagram of two bytes, cut to the room there is, from sender 4.
abbrev two_bytes : RecvCall (Unit {0}) (Unit {0}) (List ℕ × ℕ)
two_bytes fd n os = (tt, ok (take n (1 ∷ 2 ∷ []), 4))

receives_two :
    (b' : List ℕ × List ℕ) × (recv_buf_from vec two_bytes 3 (9 ∷ [], []) tt
      ≡ value (tt, b', ok (2, 4)))
    × (b'.0 ≡ 9 ∷ 1 ∷ 2 ∷ [])
receives_two =
    recv_buf_from-written vec two_bytes (λ fd n os os' sent from e. fits n os' sent from e) 3
      (9 ∷ [], []) tt tt (1 ∷ 2 ∷ []) 4 refl
  where
    fits :
        (n : ℕ) (os' : Unit {0}) (sent : List ℕ) (from : ℕ)
        → ◌≡◌ {A = Unit {0} × Result (Unit {0}) (List ℕ × ℕ)}
            (tt, ok (take n (1 ∷ 2 ∷ []), 4))
            (os', ok (sent, from))
        → length sent ≤ n
    fits n os' sent from e =
        let same : take n (1 ∷ 2 ∷ []) ≡ sent = cc in
        omega (arith, length-take-le {I = ℕ} n (1 ∷ 2 ∷ []), ap length same)

-- A system that attaches programs of 1 to 4096 instructions.
abbrev kernel : ℕ → SockFprog ℕ → List ℕ → List ℕ × ℤ
kernel fd p os = if ltb 0 p.len && leb p.len 4096 then (fprog_insns p, pos 0) else (os, negsuc 0)

-- More than 2 ^ 16 instructions.
abbrev long_filter : List ℕ
long_filter = replicate 65538 4

attach_reuse_port_cbpf-take_example :
    (attach_reuse_port_cbpf kernel (λ os. tt) 3 long_filter []
      ≡ attach_reuse_port_cbpf kernel
          (λ os. tt)
          3
          (take (length long_filter % 2 ^ 16) long_filter)
          [])
    × ((take (length long_filter % 2 ^ 16) long_filter ≡ long_filter)
        ↔ (length long_filter < 2 ^ 16))
attach_reuse_port_cbpf-take_example =
    attach_reuse_port_cbpf-take kernel (λ os. tt) (λ fd p q os len insns. rw (insns, len) refl) 3
      long_filter []
