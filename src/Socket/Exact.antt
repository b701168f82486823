-- ===== src/Socket/Exact.antt =====
-- The calls that go on until all is transferred: recv_exact, read_exact, write, send.
use uthread.Base.{
  ℕ, zero, suc, ◌+◌, ◌-◌, Bool, true, false, ◌&&◌, ◌==◌, ℤ, pos, pos_part, minus_one, eqb_ℤ,
  if◌then◌else◌,
}
use uthread.Status.{Event, rd, wr}
use uthread.Status.St
use uthread.Types.{Ptr}
use uthread.Machine.{M, ok, Call, Env, syscall, pure, raise, out_of_fuel, ◌>>=◌, ◌>>◌}
use uthread.Sleep.{register_event}
use uthread.Socket.Linked.{Linked, minus_two, would_block, status_has, running}

module _ ⦃e : Env⦄ where
  -- What a loop does after a transfer by `call`, at `done` bytes: `next` goes on at another count.
  -- `check` says whether a timeout ends the loop.
  unfoldable pub exact_step : Bool → Event → Ptr → ℤ → ℤ → ℕ → (ℕ → M ℤ) → M ℤ
  exact_step check ev ut fd ret done next s =
      if eqb_ℤ ret (pos 0)
      then ok (pos done) s
      else if would_block ret s
      then (do
        register_event ut fd ev 0
        late ← status_has ut St.expired
        if check && late then pure minus_two else next done)
          s
      else if eqb_ℤ ret minus_one
      then ok minus_one s
      else next (done + pos_part ret) s

  -- `while (done != length)`, where `call` transfers from an offset at most so many bytes
  unfoldable pub exact_loop : ℕ → Bool → Event → (ℕ → ℕ → M ℤ) → Ptr → ℤ → ℕ → ℕ → M ℤ
  exact_loop zero check ev call ut fd length done = raise out_of_fuel
  exact_loop (suc fuel) check ev call ut fd length done =
      let next = exact_loop fuel check ev call ut fd length in
      if done == length then pure (pos done) else (do
        eof ← status_has ut St.fdeof
        if eof
            then pure minus_one
            else (do ret ← call done (length - done); exact_step check ev ut fd ret done next))

  unfoldable pub uthread_write : ℕ → ℤ → ℕ → ℕ → M ℤ
  uthread_write fuel fd buf length = do
    ut ← running
    exact_loop fuel false wr (λ off n. syscall (Call.output fd (buf + off) n)) ut fd length 0

  module _ (c : Linked) where
    unfoldable pub uthread_recv_exact : ℕ → ℤ → ℕ → ℕ → M ℤ
    uthread_recv_exact fuel fd buf length = do
      ut ← running
      exact_loop fuel true rd (λ off n. c.recv fd (buf + off) n) ut fd length 0

    unfoldable pub uthread_read_exact : ℕ → ℤ → ℕ → ℕ → M ℤ
    uthread_read_exact fuel fd buf length = do
      ut ← running
      exact_loop fuel true rd (λ off n. c.read fd (buf + off) n) ut fd length 0

    unfoldable pub uthread_send : ℕ → ℤ → ℕ → ℕ → M ℤ
    uthread_send fuel fd buf length = do
      ut ← running
      exact_loop fuel false wr (λ off n. c.send fd (buf + off) n) ut fd length 0
