-- ===== src/Timer.antt =====
-- timer.c: the wheel of ten slots that asks uthreads to yield. The wheel is the `timer` of the
-- state; a slot is the list of its nodes in order.
pub mod Pending
pub mod Signals
use uthread.Base.{
  ℕ, ◌+◌, ◌-◌, ◌/◌, ◌%◌, List, [], ◌∷◌, pos, eqb_ℤ, ◌==◌, ltb, if◌then◌else◌, not, update,
}
use uthread.Types.{Ptr, TimerNode, TimerWheel}
use uthread.Machine.{
  M, Rt, Result, ok, Call, Env, syscall, pure, ◌>>=◌, ◌>>◌, get, modify, assert_that, when, raise,
  null_deref, load, p_of, get_p,
}

abbrev pub time_wheel_size : ℕ
time_wheel_size = 10

-- the period that `create_timewheel` gives to `setitimer`, in microseconds
abbrev pub tick_usec : ℕ
tick_usec = 10000

abbrev pub set_timer : (TimerWheel → TimerWheel) → M (Unit {0})
set_timer f = modify λ s. record s { timer = f s.timer }

module _ ⦃e : Env⦄ where
  -- `create_timewheel`, up to the endless sleep in which its thread stays
  unfoldable pub create_timewheel : M (Unit {0})
  create_timewheel = do
    set_timer λ w. record w { current = 0 }
    r ← syscall (Call.setitimer tick_usec)
    pure tt

  -- a node that is due: its uthread's thread gets SIGUSR1, if the uthread may be preempted
  pub signal : TimerNode → M (Unit {0})
  signal n = do
    u ← load n.ut
    when (u.is_wating_yield_signal == 1) (do
      i ← p_of u
      p ← get_p i
      r ← syscall (Call.pthread_kill p.tid)
      assert_that (eqb_ℤ r (pos 0)))

  -- the loop of `tick` along one slot: the nodes that stay
  unfoldable pub walk : List TimerNode → M (List TimerNode)
  walk [] = pure []
  walk (n ∷ ns) =
      let rest = walk ns in
      if ltb 0 n.rotation
      then (do ms ← rest; pure (record n { rotation = n.rotation - 1 } ∷ ms))
      else (do signal n; rest)

  unfoldable pub tick : M (Unit {0})
  tick = do
    s ← get
    ms ← walk (s.timer.slot s.timer.current)
    set_timer λ w. record w {
      slot = update w.slot w.current ms;
      current = (w.current + 1) % time_wheel_size;
    }

  unfoldable pub add_timer : ℕ → Ptr → M (Unit {0})
  add_timer len ut = do
    node ← syscall Call.malloc
    when (eqb_ℤ node (pos 0)) (raise null_deref)
    set_timer λ w.
        let i = (len + w.current) % time_wheel_size in
        record w {
          slot = update w.slot i (record { rotation = len / time_wheel_size; ut = ut } ∷ w.slot i);
        }
