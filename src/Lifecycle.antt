-- ===== src/Lifecycle.antt =====
-- uthread.c: what a uthread does on its own side of a switch, and how it is freed.
use uthread.Base.{
  ℕ, ◌+◌, ◌-◌, ◌%◌, ◌^◌, Option, none, some, ◌==◌, ltb, ℤ, pos, minus_one, eqb_ℤ, ltb_ℤ,
  if◌then◌else◌, update,
}
use uthread.Status.{bit}
use uthread.Status.St
use uthread.Types.{Ptr, Uthread}
use uthread.Machine.{
  M, ok, Call, Env, of_ut, of_sched, syscall, note, pure, ◌>>=◌, ◌>>◌, modify, modify_global,
  assert_that, deref, load, store, free, get_sched, sched_get, status_set,
}

-- `stack[i] = v`, for a word of the running program's stacks
abbrev pub poke : ℕ → ℕ → M (Unit {0})
poke a v = modify λ s. record s { memory = update s.memory a v }

-- `_uthread_sleep_cmp`
unfoldable pub sleep_cmp : Uthread → Uthread → ℤ
sleep_cmp u1 u2 =
    if ltb u1.wakeup_time_usec u2.wakeup_time_usec
    then minus_one
    else if u1.wakeup_time_usec == u2.wakeup_time_usec
    then pos 0
    else pos 1

-- `_uthread_wait_cmp`
unfoldable pub wait_cmp : Uthread → Uthread → ℤ
wait_cmp ut1 ut2 =
    if ltb_ℤ ut1.fd_wait ut2.fd_wait
    then minus_one
    else if eqb_ℤ ut1.fd_wait ut2.fd_wait
    then pos 0
    else pos 1

-- `*(ut->retval) = retval`, if none of the three is NULL
abbrev pub store_retval : Option ℕ → Option Ptr → Option ℕ → M (Unit {0})
store_retval (some v) (some j) (some a) = poke a v
store_retval _ _ _ = pure tt

-- `_sched_get()->cur_uthread`
abbrev pub cur_uthread : M (Option Ptr)
cur_uthread = do i ← sched_get; sc ← get_sched i; pure sc.cur_uthread

-- what `_uthread_yield` does before its switch: the uthread that yields
unfoldable pub yield_enter : M Ptr
yield_enter = do
  cur ← cur_uthread
  ut ← deref cur
  store ut λ u. record u { is_wating_yield_signal = 0 }
  pure ut

-- what `uthread_exit` does before it yields
unfoldable pub exit_enter : Option ℕ → M (Unit {0})
exit_enter retval = do
  cur ← cur_uthread
  ut ← deref cur
  status_set ut St.exited
  u ← load ut
  store_retval retval u.ut_joined u.retval

module _ ⦃e : Env⦄ where
  -- `_uthread_yield`
  unfoldable pub uthread_yield : M (Unit {0})
  uthread_yield = do ut ← yield_enter; i ← sched_get; e.switch (of_sched i) (of_ut ut)

  -- `handler`, which SIGUSR1 runs
  unfoldable pub handler : M (Unit {0})
  handler = do r ← syscall Call.sigprocmask; uthread_yield

  -- `_uthread_exec`
  unfoldable pub uthread_exec : Ptr → M (Unit {0})
  uthread_exec ut = do u ← load ut; e.run_func u.func u.arg; status_set ut St.exited; uthread_yield

  -- `_uthread_init`
  unfoldable pub uthread_init : Ptr → M (Unit {0})
  uthread_init ut = do
    u ← load ut
    let stack = u.stack + u.stack_size
    poke (stack - 16) ut
    poke (stack - 24) 0
    store ut λ v. record v {
      ctx = record (v.ctx) { esp = stack - 32; ebp = stack - 24; eip = e.exec_address };
      status = bit St.ready;
    }

  -- `n_uthread--`, under the mutex
  unfoldable pub forget_uthread : M (Unit {0})
  forget_uthread = do
    locked ← syscall Call.mutex_lock
    assert_that (eqb_ℤ locked (pos 0))
    modify_global λ g. record g { n_uthread = (g.n_uthread + 2 ^ 32 - 1) % 2 ^ 32 }
    unlocked ← syscall Call.mutex_unlock
    assert_that (eqb_ℤ unlocked (pos 0))

  -- `_uthread_free`
  unfoldable pub uthread_free : Ptr → M (Unit {0})
  uthread_free ut = do u ← load ut; note (Call.free_stack u.stack); free ut; forget_uthread

  -- `_uthread_free_main`
  unfoldable pub uthread_free_main : Ptr → M (Unit {0})
  uthread_free_main ut = do free ut; forget_uthread

  unfoldable pub main_end : M (Unit {0})
  main_end = do cur ← cur_uthread; ut_main ← deref cur; status_set ut_main St.exited; uthread_yield

  -- `uthread_exit`; `none` is a NULL `retval`
  unfoldable pub uthread_exit : Option ℕ → M (Unit {0})
  uthread_exit retval = do exit_enter retval; uthread_yield

-- `uthread_self`: -1 without a scheduler
unfoldable pub uthread_self : M (Option (Option Ptr))
uthread_self s = elim s.tls [
  | none ↦ ok none s
  | some i ↦ ok (some (s.global.all_sched i).cur_uthread) s
]

unfoldable pub uthread_detach : Ptr → M ℤ
uthread_detach ut = do status_set ut St.detached; pure (pos 0)
