-- ===== src/ZprExt/UsizeCell.antt =====
-- zpr-ext/src/std/cell.rs: `UsizeCell`, whose state is its number.
use zpr_utils.Base.{ℕ, ◌+◌, ◌-◌, ◌%◌, ◌^◌, ◌<◌, ◌≡◌, refl, arith}
use zpr_utils.Base.Exec.{Exec, value, ◌>>=◌, add_usize, sub_usize}

pub record UsizeCell : Type 0 where
  pub val : ℕ

unfoldable pub new : ℕ → UsizeCell
new val = record { val = val }

unfoldable pub into_inner : UsizeCell → ℕ
into_inner c = c.val

unfoldable pub load : UsizeCell → ℕ
load c = c.val

unfoldable pub store : ℕ → UsizeCell → UsizeCell
store val c = record { val = val }

-- `wrapping_add` and `wrapping_sub`.
unfoldable pub fetch_add : ℕ → UsizeCell → UsizeCell × ℕ
unfolding load store
fetch_add val c = (store ((load c + val) % 2 ^ 64) c, load c)

unfoldable pub fetch_sub : ℕ → UsizeCell → UsizeCell × ℕ
unfolding load store
fetch_sub val c = (store ((load c + (2 ^ 64 - val)) % 2 ^ 64) c, load c)

unfoldable pub fetch_add_nowrap : ℕ → UsizeCell → Exec (UsizeCell × ℕ)
unfolding load store
fetch_add_nowrap val c = do sum ← add_usize (load c) val; value (store sum c, load c)

unfoldable pub fetch_sub_nowrap : ℕ → UsizeCell → Exec (UsizeCell × ℕ)
unfolding load store
fetch_sub_nowrap val c = do left ← sub_usize (load c) val; value (store left c, load c)

-- On 64-bit values, `fetch_sub` takes back what `fetch_add` added, wrap-around included, and
-- returns the sum that `fetch_add` stored.
pub fetch_sub-fetch_add :
    (val : ℕ) (c : UsizeCell)
    → val < 2 ^ 64
    → c.val < 2 ^ 64
    → fetch_sub val (fetch_add val c).0 ≡ (c, (c.val + val) % 2 ^ 64)
unfolding fetch_sub fetch_add load store
fetch_sub-fetch_add val c small held =
    let back : ((c.val + val) % 2 ^ 64 + (2 ^ 64 - val)) % 2 ^ 64 ≡ c.val =
      omega (arith, small, held) in
    rw back refl
