-- ===== src/Resume.antt =====
-- uthread.c: `_uthread_resume`, the scheduler's side of a switch.
pub mod Leave
pub mod Enter
pub mod Joiner
use uthread.Base.{
  ℕ, ◌+◌, Option, none, some, Bool, true, false, not, ◌==◌, ℤ, pos, if◌then◌else◌, List, update,
}
use uthread.Status.{has}
use uthread.Status.St
use uthread.Types.{Ptr, Uthread}
use uthread.Machine.{
  M, Rt, Result, ok, Env, Ctx, of_ut, of_sched, pure, ◌>>=◌, ◌>>◌, modify_global, deref, when, load,
  store, set_sched, sched_get, sched_p, p_of, ready_insert,
}
use uthread.Timer.{add_timer}
use uthread.Lifecycle.{uthread_init, uthread_free, uthread_free_main}
use uthread.Sleep.{desched_sleep}

module _ ⦃e : Env⦄ where
  -- the uthread that joined the ended one is made ready
  unfoldable pub wake_joiner : Option Ptr → M (Unit {0})
  wake_joiner none = pure tt
  wake_joiner (some j) = do desched_sleep j; u ← load j; i ← p_of u; ready_insert i j

  -- what `_uthread_resume` does before its switch
  unfoldable pub resume_enter : ℕ → Ptr → M (Unit {0})
  resume_enter i ut = do
    u ← load ut
    when (has u.status St.new) (uthread_init ut)
    set_sched i λ sc. record sc { cur_uthread = some ut }
    store ut λ v. record v { is_wating_yield_signal = 1 }
    add_timer 1 ut

  -- an ended uthread is freed; its status and id are read after that
  unfoldable pub resume_exited : Ptr → M (Unit {0})
  resume_exited ut = do
    u ← load ut
    wake_joiner u.ut_joined
    if u.is_main == 0 then uthread_free ut else uthread_free_main ut
    v ← load ut
    when (has v.status St.detached)
        (modify_global λ g. record g { bitmap_ut = update g.bitmap_ut v.id 0 })

  -- what it does after the uthread has switched back
  unfoldable pub resume_leave : ℕ → Ptr → M (Unit {0})
  resume_leave i ut = do
    set_sched i λ sc. record sc { cur_uthread = none }
    u ← load ut
    if has u.status St.exited
        then resume_exited ut
        else if has u.status St.sleeping
        then pure tt
        else (do j ← sched_p i; ready_insert j ut)

  -- `_uthread_resume`
  unfoldable pub uthread_resume : Ptr → M (Unit {0})
  uthread_resume ut = do
    i ← sched_get
    resume_enter i ut
    e.switch (of_ut ut) (of_sched i)
    resume_leave i ut
