-- ===== src/Tests/Sockets.antt =====
-- The theorems on transfers, at concrete buffers and vectors.
use uthread.Base.{
  ℕ, ◌≡◌, refl, some, false, List, [], ◌∷◌, ℤ, pos, minus_one, ltb, if◌then◌else◌, arith, length,
}
use uthread.Status.{has, wr}
use uthread.Machine.{M, Rt, ok, fault, out_of_fuel, load}
use uthread.Tests.Setup.{env, a_uthread, one, state}
use uthread.Socket.Linked.{Linked}
use uthread.Socket.Exact.{exact_step, exact_loop, uthread_write}
use uthread.Socket.Write.{Tiled, uthread_write_all}
use uthread.Socket.Transfer.{Reports, exact_loop_reports}
use uthread.Socket.Vector.{advance, writev_loop}
use uthread.Socket.Vector.Advance.{addresses, bytes, bytes-advance, writev_zero_tail}
use uthread.Hook.{hooked}
use uthread.Hook.Recursion.{hooked_recv_diverges}

abbrev start : Rt
start = state (one 100 a_uthread) [] (some 100)

uthread_write_example :
    (t : Rt) × (uthread_write 8 (pos 5) 1000 7 start ≡ ok (pos 7) t)
    × Tiled (pos 5) 1000 [] 7 t.trace
unfolding has
uthread_write_example =
    uthread_write_all ⦃e = env⦄ (pos 5) 1000 8 0 100 7 start
      (λ tr b n h. ((if ltb 3 n then 3 else n), refl, ground arith, ground arith)) refl refl
      (a_uthread, refl, refl) (omega arith)

-- two bytes at once
abbrev two_at_most : ℕ → ℕ → M ℤ
two_at_most off n s = ok (pos (if ltb 2 n then 2 else n)) s

exact_loop_example : Reports 0 5 (pos 5)
unfolding exact_loop exact_step has load
exact_loop_example =
    exact_loop_reports ⦃e = env⦄ 4 false wr two_at_most 100 (pos 5) 5 0 start start (pos 5)
      (λ off n s t r h. ground arith) (omega arith) refl

abbrev vector : List (ℕ × ℕ)
vector = (10, 2) ∷ (20, 4) ∷ []

bytes-advance_example : bytes (advance 3 vector) ≡ 21 ∷ 22 ∷ 23 ∷ []
unfolding bytes addresses
bytes-advance_example = bytes-advance 3 vector

abbrev writes_all : Linked
writes_all = record {
  read = λ fd b n s. ok minus_one s;
  recv = λ fd b n s. ok minus_one s;
  recvmsg = λ fd s. ok minus_one s;
  recvfrom = λ fd b n s. ok minus_one s;
  send = λ fd b n s. ok minus_one s;
  sendmsg = λ fd s. ok minus_one s;
  sendto = λ fd b n s. ok minus_one s;
  writev = λ fd l s. ok (pos (length (bytes l))) s;
}

writev_zero_tail_example :
    (q : Rt) × (writev_loop writes_all 2 100 (pos 5) ((10, 2) ∷ (20, 0) ∷ []) 0 start
      ≡ ok (pos 0) q)
unfolding advance bytes addresses
writev_zero_tail_example =
    writev_zero_tail ⦃e = env⦄ writes_all 0 100 (pos 5) ((10, 2) ∷ (20, 0) ∷ []) 2 (20, 0) [] start
      start refl (omega arith) refl refl (λ l q none_left. (q, rw none_left))

hooked_recv_example : (hooked 3 4).recv (pos 5) 1000 10 start ≡ fault out_of_fuel
unfolding has
hooked_recv_example =
    hooked_recv_diverges ⦃e = env⦄ (λ tr fd. refl) 3 4 (pos 5) 1000 10 start 100
      (0, refl, refl, (a_uthread, refl, refl))
