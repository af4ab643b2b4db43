-- ===== src/ZprExt/Retry.antt =====
-- zpr-ext/src/tokio.rs: the loops of `UnixStreamExt`, which wait until the socket is ready, try the
-- call, and start again when it would block. The socket is a parameter.
use zpr_utils.Base.{ℕ, zero, suc, ◌≡◌, refl, Bool, true, false, Option, none, some, Result, ok, err}

pub data Interest : Type 0 where
  readable : Interest
  writable : Interest

-- What the code calls of tokio's `UnixStream`, on the system's state: the wait for readiness,
-- `try_io`, and whether an error's kind is `WouldBlock`.
pub record Stream (Os IoError : Type 0) : Type 0 where
  pub ready : Interest → Os → Os × Result IoError (Unit {0})
  pub try_io : Interest → (Os → Os × Result IoError ℕ) → Os → Os × Result IoError ℕ
  pub would_block : IoError → Bool

module _ {Os IoError : Type 0} (stream : Stream Os IoError) where
  -- What a round comes to: a result, or the state to start again from.
  pub data Round : Type 0 where
    breaks : Os → Result IoError ℕ → Round
    continues : Os → Round

  abbrev tried : Os × Result IoError ℕ → Round
  tried (os, ok n) = breaks os (ok n)
  tried (os, err e) = elim (stream.would_block e) [
    | true ↦ continues os
    | false ↦ breaks os (err e)
  ]

  abbrev waited : Interest → (Os → Os × Result IoError ℕ) → Os × Result IoError (Unit {0}) → Round
  waited interest call (os, err e) = breaks os (err e)
  waited interest call (os, ok _) = tried (stream.try_io interest call os)

  -- The rounds of the two loops. The second waits to read, and then tries as for writing.
  unfoldable pub send_round : (Os → Os × Result IoError ℕ) → Os → Round
  send_round send os = waited writable send (stream.ready writable os)

  unfoldable pub recv_round : (Os → Os × Result IoError ℕ) → Os → Round
  recv_round recv os = waited writable recv (stream.ready readable os)

  -- A loop on fuel: `none` if it is not through yet.
  unfoldable pub rounds : ℕ → (Os → Round) → Os → Option (Os × Result IoError ℕ)
  rounds zero round os = none
  rounds (suc fuel) round os =
      let again : Os → Option (Os × Result IoError ℕ) = rounds fuel round in
      elim (round os) [ breaks os' r ↦ some (os', r) | continues os' ↦ again os' ]

  unfoldable pub send_vectored_with_ancillary :
      ℕ → (Os → Os × Result IoError ℕ) → Os → Option (Os × Result IoError ℕ)
  unfolding send_round rounds
  send_vectored_with_ancillary fuel send os = rounds fuel (send_round send) os

  unfoldable pub recv_vectored_with_ancillary :
      ℕ → (Os → Os × Result IoError ℕ) → Os → Option (Os × Result IoError ℕ)
  unfolding recv_round rounds
  recv_vectored_with_ancillary fuel recv os = rounds fuel (recv_round recv) os

  -- `n` rounds lead from one state to another.
  pub data Retries (round : Os → Round) : ℕ → Os → Os → Type 0 where
    ready_now : {os : Os} → Retries round 0 os os
    retried :
        {n : ℕ} {os os' os'' : Os}
        → round os ≡ continues os'
        → Retries round n os' os''
        → Retries round (suc n) os os''

  -- A loop whose call would block a number of times, and then comes to a result, returns that
  -- result, on one unit of fuel more.
  pub rounds-Retries :
      (round : Os → Round) (n : ℕ) (os os' os'' : Os) (r : Result IoError ℕ)
      → Retries round n os os'
      → round os' ≡ breaks os'' r
      → rounds (suc n) round os ≡ some (os'', r)
  unfolding rounds
  rounds-Retries round zero os os' os'' r ready_now last = rw (rounds, last) refl
  rounds-Retries round (suc n) os os' os'' r (retried again others) last =
      rw (rounds, again) (rounds-Retries round n _ os' os'' r others last)
