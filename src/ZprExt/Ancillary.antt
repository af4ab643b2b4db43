-- ===== src/ZprExt/Ancillary.antt =====
-- zpr-ext/src/std/os/unix.rs: `SocketAncillary`, and how it is sent and received. What libc lays
-- out and the system does is a parameter: `Cmsg` has the sizes and bytes of a control message;
-- `first_rights` reads the descriptors of the first one, if it is such a message.
use zpr_utils.Base.{
  ℕ, zero, suc, ◌+◌, ◌*◌, ◌%◌, ◌==◌, ◌≤◌, ◌≡◌, refl, Bool, true, Option, none, some, List, [], ◌∷◌,
  ◌++◌, map, length, ltb, leb, if◌then◌else◌, Result, ok, err,
}
use zpr_utils.Base.Exec.{Exec, value, undefined, ◌>>=◌}
use zpr_utils.ZprExt.Fd.{CowFd, from_borrowed, from_raw_fd, as_fd}

-- The buffer is a slice: where it is, and its bytes.
pub record SocketAncillary : Type 0 where
  pub address : ℕ
  pub buffer : List ℕ
  pub fds : List CowFd

-- `AncillaryData`, of which credentials are never made.
pub data AncillaryData : Type 0 where
  scm_rights_data : List CowFd → AncillaryData

unfoldable pub new : ℕ → List ℕ → SocketAncillary
new address buffer = record { address = address; buffer = buffer; fds = [] }

unfoldable pub add_fds : List ℕ → SocketAncillary → SocketAncillary × Bool
unfolding from_borrowed
add_fds fds a = (record a { fds = a.fds ++ map from_borrowed fds }, true)

unfoldable pub clear : SocketAncillary → SocketAncillary
clear a = record a { fds = [] }

unfoldable pub is_empty : SocketAncillary → Bool
is_empty a = leb (length a.fds) 0

-- The one message that the iterator yields, if any.
unfoldable pub into_messages : SocketAncillary → Option AncillaryData
unfolding is_empty
into_messages a = if is_empty a then none else some (scm_rights_data a.fds)

-- What libc says of a control message: `CMSG_LEN` and `CMSG_SPACE` of so many bytes of data, the
-- alignment of its header, the bytes of a header of SCM_RIGHTS with a given length, and the bytes
-- of descriptors in memory.
pub record Cmsg : Type 0 where
  pub cmsg_len : ℕ → ℕ
  pub cmsg_space : ℕ → ℕ
  pub align : ℕ
  pub rights_header : ℕ → List ℕ
  pub raw_fds : List ℕ → List ℕ

-- `size_of::<RawFd>()`.
abbrev pub size_of_raw_fd : ℕ
size_of_raw_fd = 4

-- Its documented layout: the data follow the header and its padding, `CMSG_LEN` counts up to their
-- end, and `CMSG_SPACE` adds the padding behind them.
pub record IsCmsg (libc : Cmsg) : Type 0 where
  pub header_before : (n : ℕ) → length (libc.rights_header n) ≤ libc.cmsg_len 0
  pub len_of : (n : ℕ) → libc.cmsg_len n ≡ libc.cmsg_len 0 + n
  pub len_le_space : (n : ℕ) → libc.cmsg_len n ≤ libc.cmsg_space n
  pub raw_size : (fds : List ℕ) → length (libc.raw_fds fds) ≡ length fds * size_of_raw_fd

abbrev pub front : ℕ → List ℕ → List ℕ
front zero bytes = []
front (suc n) [] = []
front (suc n) (byte ∷ bytes) = byte ∷ front n bytes

-- What is left of the buffer behind `n` bytes.
abbrev pub behind : ℕ → List ℕ → List ℕ
behind zero bytes = bytes
behind (suc n) [] = []
behind (suc n) (byte ∷ bytes) = behind n bytes

-- A write through a pointer into the buffer, which is undefined past its end.
abbrev pub write_at : ℕ → List ℕ → List ℕ → Exec (List ℕ)
write_at offset bytes buffer =
    if ltb (length buffer) (offset + length bytes)
    then undefined
    else value (front offset buffer ++ (bytes ++ behind (offset + length bytes) buffer))

-- What a call reads that is told of `n` bytes at the start of the buffer, which is undefined if
-- there are less.
abbrev pub told_of : ℕ → List ℕ → Exec (List ℕ)
told_of n buffer = if ltb (length buffer) n then undefined else value (front n buffer)

-- A positive count is a success; none at all is an error, as a failed call is.
abbrev counted_result :
    {Os IoError : Type 0} → (Os → IoError) → Os → Result IoError ℕ → Result IoError ℕ
counted_result last_os_error os (err e) = err e
counted_result last_os_error os (ok zero) = err (last_os_error os)
counted_result last_os_error os (ok (suc n)) = ok (suc n)

module _ {Os IoError : Type 0} (libc : Cmsg)
    (sendmsg : ℕ → List (List ℕ) → List ℕ → Os → Os × Result IoError ℕ)
    (last_os_error : Os → IoError) where
  -- The buffer with the control message, if there are descriptors, and the `msg_controllen` bytes
  -- that `sendmsg` reads. `CMSG_FIRSTHDR` is the start of the buffer, as it is for any
  -- `msg_controllen` with room for a header. The header is written through a pointer to it, which
  -- has to be aligned.
  abbrev pub control : List ℕ → SocketAncillary → Exec (List ℕ × List ℕ)
  control [] a = value (a.buffer, [])
  control (fd ∷ fds) a =
      let fds_size = length (fd ∷ fds) * size_of_raw_fd in
      if a.address % libc.align == 0
      then (do
        headed ← write_at 0 (libc.rights_header (libc.cmsg_len fds_size)) a.buffer
        filled ← write_at (libc.cmsg_len 0) (libc.raw_fds (fd ∷ fds)) headed
        msg_control ← told_of (libc.cmsg_space fds_size) filled
        value (filled, msg_control))
      else undefined

  unfoldable pub uds_send_vectored_with_ancillary :
      ℕ → List (List ℕ) → SocketAncillary → Os → Exec (Os × SocketAncillary × Result IoError ℕ)
  uds_send_vectored_with_ancillary fd bufs ancillary os = do
    filled ← control (map as_fd ancillary.fds) ancillary
    let sent : Os × Result IoError ℕ = sendmsg fd bufs filled.1 os
    value
        (sent.0, record ancillary { buffer = filled.0 }, counted_result last_os_error sent.0 sent.1)

  -- `UnixStreamExt`, of a stream with descriptor `fd`.
  unfoldable pub send_vectored_with_ancillary :
      ℕ → List (List ℕ) → SocketAncillary → Os → Exec (Os × SocketAncillary × Result IoError ℕ)
  unfolding uds_send_vectored_with_ancillary
  send_vectored_with_ancillary fd bufs ancillary os =
      uds_send_vectored_with_ancillary fd bufs ancillary os

-- What `recvmsg` leaves: its result, the data, the buffer, and as much of the buffer as
-- `msg_controllen` says.
pub record Received (Os IoError : Type 0) : Type 0 where
  pub system : Os
  pub res : Result IoError ℕ
  pub data_in : List (List ℕ)
  pub control_buffer : List ℕ
  pub control_part : List ℕ

module _ {Os IoError : Type 0} (first_rights : List ℕ → Option (List ℕ))
    (recvmsg : ℕ → List (List ℕ) → List ℕ → Os → Received Os IoError)
    (last_os_error : Os → IoError) where
  -- The descriptors of the message become the handle's own.
  abbrev taken : Option (List ℕ) → List CowFd → List CowFd
  taken none fds = fds
  taken (some raw) fds = map from_raw_fd raw

  unfoldable pub uds_recv_vectored_with_ancillary :
      ℕ
      → List (List ℕ)
      → SocketAncillary
      → Os
      → Os × List (List ℕ) × SocketAncillary × Result IoError ℕ
  uds_recv_vectored_with_ancillary fd bufs ancillary os =
      let r = recvmsg fd bufs ancillary.buffer os in
      (
        r.system,
        r.data_in,
        record ancillary {
          buffer = r.control_buffer;
          fds = taken (first_rights r.control_part) ancillary.fds;
        },
        (counted_result last_os_error r.system r.res),
      )

  unfoldable pub recv_vectored_with_ancillary :
      ℕ
      → List (List ℕ)
      → SocketAncillary
      → Os
      → Os × List (List ℕ) × SocketAncillary × Result IoError ℕ
  unfolding uds_recv_vectored_with_ancillary
  recv_vectored_with_ancillary fd bufs ancillary os =
      uds_recv_vectored_with_ancillary fd bufs ancillary os

  -- A call that fails, and leaves the buffer as it is with all of it counted as control data, takes
  -- the descriptors of a message that was left in the buffer.
  pub uds_recv-stale :
      (fd : ℕ) (bufs : List (List ℕ)) (a : SocketAncillary) (os : Os) (e : IoError) (raw : List ℕ)
      → (recvmsg fd bufs a.buffer os).res ≡ err e
      → (recvmsg fd bufs a.buffer os).control_part ≡ a.buffer
      → first_rights a.buffer ≡ some raw
      → let out = uds_recv_vectored_with_ancillary fd bufs a os in
        (out.2.fds ≡ map from_raw_fd raw) × (out.3 ≡ err e)
  unfolding uds_recv_vectored_with_ancillary
  uds_recv-stale fd bufs a os e raw failed left there = (rw (left, there) refl, rw failed refl)
