-- ===== src/Socket/Write.antt =====
-- uthread_socket.c: the calls that `uthread_write` makes of the kernel.
use uthread.Base.{
  ℕ, zero, suc, ◌+◌, ◌-◌, ◌≤◌, ◌<◌, ◌≡◌, refl, false, ◌==◌, eqb_ℤ, ℤ, pos, minus_one, inl, inr,
  arith, Bool-cases, some, List, ◌∷◌,
}
use uthread.Status.{wr, has}
use uthread.Status.St
use uthread.Types.{Ptr, Uthread}
use uthread.Machine.{M, Rt, ok, Call, live, Env, syscall, load_live, deref-some}
use uthread.Socket.Exact.{exact_step, exact_loop, uthread_write}

-- The running uthread, alive and not told of an end of file.
abbrev pub Open : Rt → Ptr → Type 0
Open s ut = (u : Uthread) × (s.heap ut ≡ live u) × (has u.status St.fdeof ≡ false)

module _ ⦃e : Env⦄ (fd : ℤ) (buf : ℕ) where
  -- Each write of one byte or more transfers at least one, and no more than it is asked for.
  abbrev pub Accepts : Type 0
  Accepts =
      (tr : List Call) (b n : ℕ)
      → 0 < n
      → (k : ℕ) × (e.reply tr (Call.output fd b n) ≡ pos k) × (0 < k) × (k ≤ n)

  -- The calls after `start` are writes of consecutive pieces of the buffer, the first at its start,
  -- each where the one before it stopped; together they have transferred so many bytes.
  pub data Tiled (start : List Call) : ℕ → List Call → Type 0 where
    begin : Tiled start 0 start
    piece :
        {done : ℕ} {tr : List Call} (n k more : ℕ)
        → Tiled start done tr
        → e.reply tr (Call.output fd (buf + done) n) ≡ pos k
        → more ≡ done + k
        → Tiled start more (Call.output fd (buf + done) n ∷ tr)

  abbrev write_call : ℕ → ℕ → M ℤ
  write_call off n = syscall (Call.output fd (buf + off) n)

  write_loop_all :
      (fuel : ℕ) (ut : Ptr) (length done : ℕ) (start : List Call) (s : Rt)
      → Accepts
      → Open s ut
      → Tiled start done s.trace
      → done ≤ length
      → length < fuel + done
      → (t : Rt) × (exact_loop fuel false wr write_call ut fd length done s ≡ ok (pos length) t)
        × Tiled start length t.trace
  unfolding exact_loop exact_step syscall
  write_loop_all zero ut length done start s accepts opened tiled fits enough = absurd (omega arith)
  write_loop_all (suc fuel) ut length done start s accepts (u, alive, open_end) tiled fits enough =
      elim (Bool-cases (done == length)) [
        | inl all ↦ let is : done ≡ length = ground arith in (s, rw (all, is), rw is at tiled)
        | inr part ↦
            let (k, answer, some_moved, bound) =
              accepts s.trace (buf + done) (length - done) (ground arith) in
            let next : Rt = record s {
              trace = Call.output fd (buf + done) (length - done) ∷ s.trace;
            } in
            let (t, rest, tiled') =
              write_loop_all fuel ut length (done + k) start next accepts (u, alive, open_end)
                (piece (length - done) k (done + k) tiled answer refl) (omega arith)
                (omega arith) in
            let some : eqb_ℤ (pos k) (pos 0) ≡ false = ground arith in
            let fine : eqb_ℤ (pos k) minus_one ≡ false = ground arith in
            (t, rw (part, load_live ut s alive, open_end, answer, some, fine) rest, tiled')
      ]

  -- Where the descriptor takes at least a byte of every write, `uthread_write` called by a uthread
  -- that has met no end of file returns the whole length, with fuel for one round a byte. Its calls
  -- write consecutive pieces, from the start of the buffer to its end.
  pub uthread_write_all :
      (fuel i : ℕ) (ut : Ptr) (length : ℕ) (s : Rt)
      → Accepts
      → s.tls ≡ some i
      → (s.global.all_sched i).cur_uthread ≡ some ut
      → Open s ut
      → length < fuel
      → (t : Rt) × (uthread_write fuel fd buf length s ≡ ok (pos length) t)
        × Tiled s.trace length t.trace
  unfolding uthread_write
  uthread_write_all fuel i ut length s accepts own cur opened enough =
      let (t, done, tiled) =
        write_loop_all fuel ut length 0 s.trace s accepts opened begin (omega arith)
          (omega arith) in
      (
        t,
        rw (deref-some s.tls s own) (rw (deref-some (s.global.all_sched i).cur_uthread s cur) done),
        tiled,
      )
