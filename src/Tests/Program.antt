-- ===== src/Tests/Program.antt =====
-- A whole program at a concrete state: the main uthread is made, runs, and ends.
use uthread.Base.{refl, some}
use uthread.Machine.{Rt, load, store, free, syscall, get_usec_now}
use uthread.Status.{has, set_bit, clear_bit}
use uthread.Timer.{create_timewheel, add_timer}
use uthread.Lifecycle.{
  yield_enter, uthread_init, exit_enter, forget_uthread, uthread_free, uthread_free_main,
}
use uthread.Event.{resume_expired, next_sleeper}
use uthread.Resume.{uthread_resume, resume_enter, resume_leave, resume_exited, wake_joiner}
use uthread.Poll.{uthread_poll, min_timeout, time_until, epoll_loop}
use uthread.Create.{
  runtime_init, init_loop, start_first, init_global, init_sched, init_p, create_main_enter,
  calloc_uthread,
}
use uthread.Loop.{
  sched_run, free_source, sched_work_done, sched_round, sched_loop, sched_idle_step, exit_process,
  has_work, serve, run_ready, run_first, run_events, has_p,
}
use uthread.Turns.Rounds.{EndsFrom}
use uthread.Turns.Program.{sched_run-EndsFrom}
use uthread.Tests.Setup.{after}
use uthread.Tests.Begin.{nothing}
use uthread.Tests.Rounds.{mortal, mortal-Guests, ends_there, switching_laws}

abbrev ready : Rt
ready = after (runtime_init ⦃e = mortal⦄ nothing) nothing

abbrev with_main : Rt
with_main = after (create_main_enter ⦃e = mortal⦄ 0 ready) ready

abbrev over : Rt
over = after (sched_run ⦃e = mortal⦄ 3 with_main) with_main

sched_run-EndsFrom_example : EndsFrom ⦃e = mortal⦄ 0 0 0 ready 0 over
unfolding runtime_init init_loop syscall start_first init_p init_sched init_global create_timewheel
    create_main_enter calloc_uthread store sched_run sched_loop sched_round resume_expired
    next_sleeper serve run_ready run_first uthread_resume resume_enter resume_leave yield_enter
    add_timer uthread_init load uthread_poll min_timeout time_until run_events has has_p set_bit
    clear_bit exit_enter resume_exited wake_joiner forget_uthread uthread_free uthread_free_main
    free exit_process sched_idle_step has_work sched_work_done epoll_loop free_source get_usec_now
sched_run-EndsFrom_example =
    sched_run-EndsFrom ⦃e = mortal⦄ (switching_laws ends_there) (λ tr. (refl, refl))
      (λ tr p n. refl) (λ tr. refl) mortal-Guests 3 4096 0 nothing ready with_main over (some 4096)
      (λ a. refl) refl refl refl refl refl refl refl
