-- ===== src/Sleep.antt =====
-- uthread_sched.c: sleeping on the tree of timers, and waiting for a descriptor.
pub mod Key
pub mod Collide
pub mod Twice
use uthread.Base.{
  ℕ, ◌+◌, ◌-◌, ◌*◌, ◌/◌, ◌%◌, ◌^◌, Option, none, some, Bool, true, false, not, ◌==◌, ltb, ℤ, pos,
  negsuc, minus_one, eqb_ℤ, if◌then◌else◌, List, update,
}
use uthread.Status.{Event, rd, wr, event_code, has}
use uthread.Status.St
use uthread.Types.{Ptr, Uthread}
use uthread.Machine.{
  M, Rt, Result, ok, Call, Cell, Env, syscall, get_usec_now, pure, ◌>>=◌, ◌>>◌, get, assert_that,
  deref, when, load, store, peek, get_p, set_p, p_of, sched_get, sched_p, status_set, status_clear,
}
use uthread.Lifecycle.{sleep_cmp, wait_cmp, uthread_yield}

-- `FD_KEY(fd, e)`: on `int64_t`, where shifting a negative `fd` keeps its sign
unfoldable pub fd_key : ℤ → ℕ → ℤ
fd_key (pos fd) e = pos (fd * 2 ^ 32 + e)
fd_key (negsuc n) e = negsuc ((n + 1) * 2 ^ 32 - e - 1)

-- `FD_EVENT(f)`, read as the `enum` that it is passed as
unfoldable pub fd_event : ℤ → ℕ
fd_event (pos f) = f % 2 ^ 32
fd_event (negsuc n) = 2 ^ 32 - 1 - n % 2 ^ 32

-- `FD_ONLY(f)`
unfoldable pub fd_only : ℤ → ℤ
fd_only (pos f) = pos (f / 2 ^ 32)
fd_only (negsuc n) = negsuc (n / 2 ^ 32)

-- the two orders of the trees, on the addresses that they hold
abbrev pub sleep_order : (Ptr → Cell) → Ptr → Ptr → ℤ
sleep_order h a b = sleep_cmp (peek h a) (peek h b)

abbrev pub wait_order : (Ptr → Cell) → Ptr → Ptr → ℤ
wait_order h a b = wait_cmp (peek h a) (peek h b)

abbrev pub is_none {ℓ} : {A : Type ℓ} → Option A → Bool
is_none none = true
is_none (some a) = false

-- the time, in milliseconds, that stands for no timeout
abbrev pub forever_msec : ℕ
forever_msec = 2 ^ 30 * 1000

module _ ⦃e : Env⦄ where
  -- what `_uthread_sched_sleep` does before it yields
  unfoldable pub sleep_enter : Ptr → ℕ → M (Unit {0})
  sleep_enter ut mescs = do
    let msec = if mescs == 0 then forever_msec else mescs
    now ← get_usec_now
    store ut λ u. record u { wakeup_time_usec = (now + msec * 1000) % 2 ^ 64 }
    u ← load ut
    i ← p_of u
    p ← get_p i
    s ← get
    let inserted = e.rb_insert (sleep_order s.heap) ut p.sleeping
    set_p i λ q. record q { sleeping = inserted.0 }
    assert_that (is_none inserted.1)
    status_set ut St.sleeping
    store ut λ v. record v { is_wating_yield_signal = 0 }

  -- `_uthread_sched_sleep`
  unfoldable pub sched_sleep : Ptr → ℕ → M (Unit {0})
  sched_sleep ut mescs = do sleep_enter ut mescs; uthread_yield; status_clear ut St.sleeping

  -- `_uthread_desched_sleep`
  unfoldable pub desched_sleep : Ptr → M (Unit {0})
  desched_sleep ut = do
    u ← load ut
    when (has u.status St.sleeping) (do
      i ← p_of u
      set_p i λ q. record q { sleeping = e.rb_remove ut q.sleeping }
      status_clear ut St.sleeping
      status_set ut St.ready)

  abbrev pub wait_bit : Event → ℕ
  wait_bit rd = St.wait_rd
  wait_bit wr = St.wait_wr

  -- what `_register_event` does before it sleeps
  unfoldable pub wait_enter : Ptr → ℤ → Event → M (Unit {0})
  wait_enter ut sockfd ev = do
    i ← sched_get
    j ← sched_p i
    p ← get_p j
    r ← syscall (Call.epoll_add p.poller_fd sockfd ev)
    assert_that (eqb_ℤ r (pos 0))
    status_set ut (wait_bit ev)
    store ut λ u. record u { fd_wait = fd_key sockfd (event_code ev) }
    u ← load ut
    k ← p_of u
    q ← get_p k
    s ← get
    set_p k λ q'. record q' { waiting = (e.rb_insert (wait_order s.heap) ut q.waiting).0 }

  -- and what it does after that
  unfoldable pub wait_leave : Ptr → Event → M (Unit {0})
  wait_leave ut ev = do
    store ut λ v. record v { fd_wait = minus_one }
    status_clear ut (wait_bit ev)

  -- `_register_event`
  unfoldable pub register_event : Ptr → ℤ → Event → ℕ → M (Unit {0})
  register_event ut sockfd ev timeout = do
    wait_enter ut sockfd ev
    sched_sleep ut timeout
    wait_leave ut ev
