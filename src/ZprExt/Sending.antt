-- ===== src/ZprExt/Sending.antt =====
-- When a send of descriptors is undefined.
use zpr_utils.Base.{ℕ, ◌*◌, ◌%◌, ◌≢◌, ◌⊎◌, ◌<◌, length}
use zpr_utils.Base.Exec.{Exec}
use zpr_utils.ZprExt.Ancillary.{SocketAncillary, Cmsg, size_of_raw_fd}

-- A buffer that does not do for so many descriptors: misaligned, or shorter than `CMSG_SPACE`.
abbrev pub IsUnfit : Cmsg → ℕ → SocketAncillary → Type 0
IsUnfit libc n a =
    (a.address % libc.align ≢ 0) ⊎ (length a.buffer < libc.cmsg_space (n * size_of_raw_fd))
