-- ===== src/Event.antt =====
-- uthread_sched.c: uthreads leave the waiting tree when their descriptor is ready or their time is
-- up.
pub mod Expired
use uthread.Base.{
  ℕ, zero, suc, ◌+◌, ◌^◌, Option, none, some, Bool, true, false, not, ◌==◌, leb, ℤ, pos, negsuc,
  minus_one, eqb_ℤ, ltb_ℤ, if◌then◌else◌, List,
}
use uthread.Status.{Event, rd, wr, event_code, has}
use uthread.Status.St
use uthread.Types.{Ptr, Uthread, zero_uthread}
use uthread.Machine.{
  M, Rt, Result, ok, Call, Cell, Env, syscall, get_usec_now, pure, raise, out_of_fuel, ◌>>=◌, ◌>>◌,
  get, assert_that, deref, when, load, store, peek, get_p, set_p, get_sched, p_of, sched_get,
  sched_p, status_set, status_clear,
}
use uthread.Lifecycle.{wait_cmp}
use uthread.Sleep.{fd_key, fd_event, fd_only, desched_sleep}
use uthread.Resume.{uthread_resume}

module _ ⦃e : Env⦄ where
  -- the uthread found, if any, is taken off both trees of its p
  unfoldable pub drop_waiting : ℕ → Option Ptr → M (Unit {0})
  drop_waiting j none = pure tt
  drop_waiting j (some a) = do
    set_p j λ q. record q { waiting = e.rb_remove a q.waiting }
    desched_sleep a

  -- `_uthread_desched_event`: the uthread that waited, taken off both trees
  unfoldable pub desched_event : ℤ → ℕ → M (Option Ptr)
  desched_event fd ev = do
    let find_ut = record zero_uthread { fd_wait = fd_key fd ev }
    i ← sched_get
    j ← sched_p i
    p ← get_p j
    s ← get
    let ut = e.rb_find (λ a. wait_cmp find_ut (peek s.heap a)) p.waiting
    drop_waiting j ut
    pure ut

  -- The waiting bit is cleared: that of reading, and otherwise the one that `BIT(UT_EVENT_WR)` names,
  -- which is the bit of UT_ST_READY.
  unfoldable pub clear_waiting : Ptr → M (Unit {0})
  clear_waiting ut = do
    u ← load ut
    if has u.status St.wait_rd
        then status_clear ut St.wait_rd
        else when (has u.status (event_code wr)) (status_clear ut (event_code wr))

  -- `_uthread_cancel_event`
  unfoldable pub cancel_event : Ptr → M (Unit {0})
  cancel_event ut = do
    u ← load ut
    let fd = fd_only u.fd_wait
    clear_waiting ut
    i ← p_of u
    p ← get_p i
    r ← syscall (Call.epoll_del p.poller_fd fd)
    assert_that (eqb_ℤ r (pos 0))
    when (not (ltb_ℤ u.fd_wait (pos 0)))
        (do found ← desched_event (fd_only u.fd_wait) (fd_event u.fd_wait); pure tt)
    store ut λ v. record v { fd_wait = minus_one }

  -- what is done to a uthread whose time is up before it is resumed
  unfoldable pub expire_enter : Ptr → M (Unit {0})
  expire_enter ut = do cancel_event ut; desched_sleep ut; status_set ut St.expired

  -- one uthread whose time is up
  unfoldable pub resume_expired_one : Ptr → M (Unit {0})
  resume_expired_one ut = do expire_enter ut; uthread_resume ut

  -- the first uthread to wake, if this scheduler has a p with one
  unfoldable pub next_sleeper : ℕ → M (Option Ptr)
  next_sleeper i = do
    sc ← get_sched i
    s ← get
    pure (elim sc.p [ none ↦ none | some j ↦ e.rb_min (s.global.all_p j).sleeping ])

  -- `_uthread_resume_expired`
  unfoldable pub resume_expired : ℕ → ℕ → M (Unit {0})
  resume_expired zero i = raise out_of_fuel
  resume_expired (suc fuel) i =
      let again = resume_expired fuel i in
      next_sleeper i >>= λ next. elim next [
        | none ↦ pure tt
        | some ut ↦ do
          u ← load ut
          now ← get_usec_now
          if leb u.wakeup_time_usec now then (do resume_expired_one ut; again) else pure tt
      ]

  -- what `handle_event` does before it resumes the uthread that waited
  unfoldable pub event_found : ℤ → Bool → Ptr → M (Unit {0})
  event_found fd is_eof ut = do
    u ← load ut
    assert_that (eqb_ℤ fd (fd_only u.fd_wait))
    clear_waiting ut
    i ← p_of u
    p ← get_p i
    r ← syscall (Call.epoll_del p.poller_fd fd)
    assert_that (eqb_ℤ r (pos 0))
    when is_eof (status_set ut St.fdeof)

  -- `handle_event`
  unfoldable pub handle_event : ℤ → Event → Bool → M (Unit {0})
  handle_event fd ev is_eof = desched_event fd (event_code ev) >>= λ found. elim found [
    | none ↦ pure tt
    | some ut ↦ do event_found fd is_eof ut; uthread_resume ut
  ]
