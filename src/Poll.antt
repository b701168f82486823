-- ===== src/Poll.antt =====
-- uthread_sched.c: how long to wait for events, and waiting for them.
pub mod Timeout
use uthread.Base.{
  ℕ, zero, suc, ◌+◌, ◌-◌, ◌*◌, ◌/◌, ◌%◌, ◌^◌, Option, none, some, Bool, true, false, not, ◌&&◌,
  ◌==◌, ltb, ℤ, pos, pos_part, minus_one, eqb_ℤ, if◌then◌else◌, List, is_empty,
}
use uthread.Types.{Ptr, Uthread}
use uthread.Machine.{
  M, Rt, Result, ok, Call, Env, syscall, get_usec_now, pure, raise, out_of_fuel, assert_failed,
  ◌>>=◌, ◌>>◌, get, deref, when, load, get_p, set_p, sched_get, sched_p,
}

abbrev pub default_timeout : ℕ
default_timeout = 1000000

-- EINTR, with the number of Linux
abbrev pub eintr : ℕ
eintr = 4

-- `struct timespec`
pub record Timespec : Type 0 where
  pub tv_sec : ℕ
  pub tv_nsec : ℕ

-- microseconds as seconds and nanoseconds
pub timespec_of : ℕ → Timespec
timespec_of usecs =
    let sec = usecs / 1000000 in
    record {
      tv_sec = sec;
      tv_nsec = if not (sec == 0) then usecs % 1000000 * 1000 else usecs * 1000;
    }

-- `t.tv_sec*1000.0 + t.tv_nsec/1000000.0` as it is cut down to whole milliseconds. Both parts are
-- exact in a `double` up to 2 ^ 42 milliseconds; past 2 ^ 31 the conversion to `int` is undefined.
pub msec_of : Timespec → ℕ
msec_of t = t.tv_sec * 1000 + t.tv_nsec / 1000000

module _ ⦃e : Env⦄ where
  -- the microseconds until the first sleeper, if any, is to wake
  unfoldable pub time_until : Option Ptr → M ℕ
  time_until none = pure default_timeout
  time_until (some ut) = do
    u ← load ut
    now ← get_usec_now
    if ltb now u.wakeup_time_usec
        then (do later ← get_usec_now; pure ((u.wakeup_time_usec + 2 ^ 64 - later) % 2 ^ 64))
        else pure 0

  -- `_uthread_min_timeout`; the clock is read twice, and `uint64_t` subtraction wraps
  unfoldable pub min_timeout : ℕ → M ℕ
  min_timeout i = do j ← sched_p i; p ← get_p j; time_until (e.rb_min p.sleeping)

  -- the loop round `epoll_wait`: the number of events
  unfoldable pub epoll_loop : ℕ → ℕ → ℕ → M ℕ
  epoll_loop zero j msec = raise out_of_fuel
  epoll_loop (suc fuel) j msec =
      let again = epoll_loop fuel j msec in
      do
        p ← get_p j
        ret ← syscall (Call.epoll_wait p.poller_fd msec)
        t ← get
        if eqb_ℤ ret minus_one
            then if t.errno == eintr then again else raise assert_failed
            else (do set_p j λ q. record q { eventlist = e.events t.trace }; pure (pos_part ret))

  -- `_uthread_poll`
  unfoldable pub uthread_poll : ℕ → M (Unit {0})
  uthread_poll fuel = do
    i ← sched_get
    j ← sched_p i
    set_p j λ q. record q { num_new_events = 0 }
    usecs ← min_timeout i
    p ← get_p j
    when (not (usecs == 0) && is_empty p.ready) (do
      n ← epoll_loop fuel j (msec_of (timespec_of usecs))
      set_p j λ q. record q { num_new_events = n })
