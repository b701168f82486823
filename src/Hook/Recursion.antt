-- ===== src/Hook/Recursion.antt =====
-- myhook.c and uthread_socket.c: the receiving calls that are hooked and made by plain name.
use uthread.Base.{ℕ, zero, suc, ◌≡◌, refl, some, false, List, ◌∷◌, ℤ, eqb_ℤ, minus_one}
use uthread.Status.{has}
use uthread.Status.St
use uthread.Types.{Ptr, Uthread}
use uthread.Machine.{Rt, ok, fault, out_of_fuel, Call, live, Env, syscall, load_live, deref-some}
use uthread.Socket.{uthread_recv, input_loop, set_nonblock}
use uthread.Hook.{hooked, recv}

-- The running uthread, alive and not told of an end of file.
abbrev pub Running : Rt → Ptr → Type 0
Running s ut =
    (i : ℕ) × (s.tls ≡ some i)
    × ((s.global.all_sched i).cur_uthread ≡ some ut)
    × ((u : Uthread) × (s.heap ut ≡ live u) × (has u.status St.fdeof ≡ false))

-- `fcntl` succeeds.
abbrev pub Fcntl : Env → Type 0
Fcntl e = (tr : List Call) (fd : ℤ) → eqb_ℤ (e.reply tr (Call.set_nonblock fd)) minus_one ≡ false

module _ ⦃e : Env⦄ (fcntl : Fcntl e) where
  set_nonblock_lem :
      (fd : ℤ) (s : Rt)
      → set_nonblock fd s ≡ ok tt (record s { trace = Call.set_nonblock fd ∷ s.trace })
  unfolding set_nonblock syscall
  set_nonblock_lem fd s = rw (fcntl s.trace fd)

  input_loop_diverges :
      (depth fuel : ℕ) (fd : ℤ) (buf length : ℕ) (s : Rt) (ut : Ptr) (u : Uthread)
      → s.heap ut ≡ live u
      → has u.status St.fdeof ≡ false
      → (hooked depth fuel).recv fd buf length (record s { trace = Call.set_nonblock fd ∷ s.trace })
        ≡ fault out_of_fuel
      → input_loop fuel ((hooked depth fuel).recv fd buf length) 0 ut fd s ≡ fault out_of_fuel
  unfolding input_loop
  input_loop_diverges depth zero fd buf length s ut u alive open_end inner = refl
  input_loop_diverges depth (suc fuel) fd buf length s ut u alive open_end inner =
      rw (load_live ut s alive, open_end, set_nonblock_lem fd s, inner)

  -- Called by a uthread that runs and has not met an end of file, the `recv` of libmyhook.so never
  -- returns: it calls itself through `uthread_recv`, to any depth, before it receives anything.
  pub hooked_recv_diverges :
      (depth fuel : ℕ) (fd : ℤ) (buf length : ℕ) (s : Rt) (ut : Ptr)
      → Running s ut
      → (hooked depth fuel).recv fd buf length s ≡ fault out_of_fuel
  unfolding hooked recv uthread_recv
  hooked_recv_diverges zero fuel fd buf length s ut run = refl
  hooked_recv_diverges (suc depth) fuel fd buf length s ut (i, own, cur, (u, alive, open_end)) =
      rw (deref-some s.tls s own) (
        rw (deref-some (s.global.all_sched i).cur_uthread s cur) (
          input_loop_diverges depth fuel fd buf length s ut u alive open_end (
            hooked_recv_diverges depth fuel fd buf length _ ut
              (i, own, cur, (u, alive, open_end)))))
