-- ===== src/Event/Expired.antt =====
-- A uthread whose time is up while it waits for no descriptor.
use uthread.Base.{ℕ, ◌≡◌, some, ℤ, minus_one, List, Bool-cases, inl, inr, update}
use uthread.Status.{has, wr, event_code, clear_bit}
use uthread.Status.St
use uthread.Types.{Ptr, Uthread}
use uthread.Machine.{
  Rt, ok, fault, assert_failed, Call, live, Env, syscall_fails, load_live, store_live, deref-some,
}
use uthread.Sleep.{fd_only}
use uthread.Event.{clear_waiting, cancel_event, expire_enter, resume_expired_one}

-- The kernel refuses to remove the descriptor -1 from an epoll instance.
abbrev pub RefusesMinusOne : Env → Type 0
RefusesMinusOne e =
    (tr : List Call) (poller : ℤ) → e.reply tr (Call.epoll_del poller minus_one) ≡ minus_one

pub clear_waiting_lem :
    ⦃e : Env⦄ (ut : Ptr) (s : Rt) (u : Uthread)
    → s.heap ut ≡ live u
    → (t : Rt) × (clear_waiting ut s ≡ ok tt t)
unfolding clear_waiting
clear_waiting_lem ut s u alive = elim (Bool-cases (has u.status St.wait_rd)) [
  | inl reading ↦ (
    record s {
      heap = update s.heap ut (live (record u { status = clear_bit u.status St.wait_rd }));
    },
    rw (load_live ut s alive, reading) (store_live ut s _ alive),
  )
  | inr other ↦ elim (Bool-cases (has u.status (event_code wr))) [
    | inl writing ↦ (
      record s {
        heap = update s.heap ut (live (record u { status = clear_bit u.status (event_code wr) }));
      },
      rw (load_live ut s alive, other, writing) (store_live ut s _ alive),
    )
    | inr neither ↦ (s, rw (load_live ut s alive, other, neither))
  ]
]

fd_only_none : (f : ℤ) → f ≡ minus_one → fd_only f ≡ minus_one
unfolding fd_only
fd_only_none f h = rw h

module _ ⦃e : Env⦄ (refuses : RefusesMinusOne e) where
  -- A uthread that sleeps without waiting for a descriptor, as one in `uthread_join` does, stops the
  -- program when its time is up: the scheduler asks the kernel to forget the descriptor -1, and the
  -- assertion on the answer fails.
  pub expired_without_fd_aborts :
      (ut : Ptr) (i : ℕ) (s : Rt) (u : Uthread)
      → s.heap ut ≡ live u
      → u.fd_wait ≡ minus_one
      → u.p ≡ some i
      → resume_expired_one ut s ≡ fault assert_failed
  unfolding resume_expired_one expire_enter cancel_event
  expired_without_fd_aborts ut i s u alive no_fd home =
      let (t, cleared) = clear_waiting_lem ut s u alive in
      rw (load_live ut s alive, cleared)
        (rw (
          deref-some u.p t home,
          fd_only_none u.fd_wait no_fd,
          syscall_fails (Call.epoll_del (t.global.all_p i).poller_fd minus_one) t
              (refuses t.trace (t.global.all_p i).poller_fd),
        ))
