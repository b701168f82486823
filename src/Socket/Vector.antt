-- ===== src/Socket/Vector.antt =====
-- `uthread_writev`. A part of the vector is `iov_base` and `iov_len`; the list holds the parts from
-- `iov_index` on.
pub mod Advance
use uthread.Base.{
  ℕ, zero, suc, ◌+◌, ◌-◌, Bool, true, false, ◌&&◌, ◌==◌, ltb, ℤ, pos, pos_part, minus_one, eqb_ℤ,
  ltb_ℤ, if◌then◌else◌, List, [], ◌∷◌,
}
use uthread.Status.{wr}
use uthread.Types.{Ptr}
use uthread.Machine.{M, Rt, Result, ok, Env, pure, raise, out_of_fuel, ◌>>=◌, ◌>>◌, get}
use uthread.Sleep.{register_event}
use uthread.Socket.Linked.{Linked, would_block, running}

-- the inner `for`: `n` bytes were written, and parts that are done drop out
unfoldable pub advance : ℕ → List (ℕ × ℕ) → List (ℕ × ℕ)
advance n [] = []
advance n ((base, len) ∷ iov) =
    if ltb 0 n
    then if ltb n len then (base + n, len - n) ∷ iov else advance (n - len) iov
    else (base, len) ∷ iov

-- `while (iov_index < iovcnt)`
pub until_done : List (ℕ × ℕ) → ℕ → (List (ℕ × ℕ) → ℕ → M ℤ) → M ℤ
until_done [] t next = pure (pos t)
until_done (l ∷ ls) t next = next (l ∷ ls) t

module _ ⦃e : Env⦄ (c : Linked) where
  pub writev_loop : ℕ → Ptr → ℤ → List (ℕ × ℕ) → ℕ → M ℤ
  writev_loop zero ut fd iov total = raise out_of_fuel
  writev_loop (suc fuel) ut fd iov total =
      let next = writev_loop fuel ut fd in
      do
        n ← c.writev fd iov
        s ← get
        if ltb_ℤ (pos 0) n
            then until_done (advance (pos_part n) iov) (total + pos_part n) next
            else if would_block n s
            then (do register_event ut fd wr 0; until_done iov total next)
            else pure n

  unfoldable pub uthread_writev : ℕ → ℤ → List (ℕ × ℕ) → M ℤ
  uthread_writev fuel fd iov = do ut ← running; writev_loop fuel ut fd iov 0
