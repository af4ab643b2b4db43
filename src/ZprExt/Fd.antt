-- ===== src/ZprExt/Fd.antt =====
-- zpr-ext/src/std/os/fd.rs: `CowFd`, a descriptor that is borrowed or owned. How the system
-- duplicates a descriptor is a parameter: it may fail, and it changes the open descriptors.
use zpr_utils.Base.{ℕ, Bool, true, false, Result, ok, err}

pub data CowFd : Type 0 where
  borrowed : ℕ → CowFd
  owned : ℕ → CowFd

unfoldable pub is_borrowed : CowFd → Bool
is_borrowed (borrowed fd) = true
is_borrowed (owned fd) = false

unfoldable pub is_owned : CowFd → Bool
is_owned (borrowed fd) = false
is_owned (owned fd) = true

-- The `From` implementations.
unfoldable pub from_borrowed : ℕ → CowFd
from_borrowed fd = borrowed fd

unfoldable pub from_owned : ℕ → CowFd
from_owned fd = owned fd

unfoldable pub as_fd : CowFd → ℕ
as_fd (borrowed fd) = fd
as_fd (owned fd) = fd

unfoldable pub as_raw_fd : CowFd → ℕ
as_raw_fd (borrowed fd) = fd
as_raw_fd (owned fd) = fd

unfoldable pub from_raw_fd : ℕ → CowFd
from_raw_fd fd = owned fd

-- `Os`: the system's state; `IoError`: what a failed call reports.
module _ {Os IoError : Type 0} (duplicate : ℕ → Os → Os × Result IoError ℕ) where
  abbrev as_owned : Os × Result IoError ℕ → Os × Result IoError CowFd
  as_owned (os, ok fd) = (os, ok (owned fd))
  as_owned (os, err e) = (os, err e)

  unfoldable pub try_clone : CowFd → Os → Os × Result IoError CowFd
  try_clone (borrowed fd) os = (os, ok (borrowed fd))
  try_clone (owned fd) os = as_owned (duplicate fd os)

  unfoldable pub try_clone_to_owned : CowFd → Os → Os × Result IoError ℕ
  try_clone_to_owned (borrowed fd) os = duplicate fd os
  try_clone_to_owned (owned fd) os = duplicate fd os

  unfoldable pub try_into_owned : CowFd → Os → Os × Result IoError ℕ
  try_into_owned (borrowed fd) os = duplicate fd os
  try_into_owned (owned fd) os = (os, ok fd)
