-- ===== src/Tests/Scheduler.antt =====
-- The theorems on resuming uthreads, at concrete states.
use uthread.Base.{ℕ, ◌≡◌, refl, some, none, true, false, [], ◌∷◌, ◌==◌, if◌then◌else◌, update}
use uthread.Status.{has}
use uthread.Status.St
use uthread.Types.{Ptr, Uthread}
use uthread.Machine.{Rt, ok, live, Call, Cell}
use uthread.Tests.Setup.{env, a_uthread, one, state}
use uthread.Resume.{resume_leave, wake_joiner}
use uthread.Resume.Leave.{idle_sched, queued, forgotten, resume_leave_going_on, resume_leave-exited}
use uthread.Resume.Joiner.{woken, with_ready, wake_joiner_lem}

abbrev two_ready : Rt
two_ready = state (λ a. live a_uthread) (100 ∷ 101 ∷ []) none

-- EXITED and DETACHED
abbrev ended : Uthread
ended = record a_uthread { status = 20; id = 5 }

abbrev one_ended : Rt
one_ended = state (one 100 ended) (101 ∷ []) (some 100)

resume_leave-exited_example :
    resume_leave 0 100 one_ended
    ≡ ok tt (record one_ended {
      heap = update one_ended.heap 100 (Cell.freed ended);
      global = record (forgotten (idle_sched 0 one_ended.global)) {
        bitmap_ut = update one_ended.global.bitmap_ut 5 0;
      };
      trace = Call.mutex_unlock ∷ Call.mutex_lock ∷ Call.free_stack 65536 ∷ [];
      freed_uses = 100 ∷ [];
    })
unfolding has
resume_leave-exited_example =
    resume_leave-exited ⦃e = env⦄ (λ tr. (refl, refl)) 0 100 one_ended ended refl refl refl

abbrev one_running : Rt
one_running = state (one 100 a_uthread) (101 ∷ []) (some 100)

resume_leave_going_on_example :
    resume_leave 0 100 one_running
    ≡ ok tt (record one_running { global = queued 0 100 (idle_sched 0 one_running.global) })
unfolding has
resume_leave_going_on_example =
    resume_leave_going_on ⦃e = env⦄ 0 0 100 one_running a_uthread refl refl refl

abbrev sleeper : Uthread
sleeper = record a_uthread { status = 8 }

abbrev one_asleep : Rt
one_asleep = state (one 100 sleeper) (101 ∷ []) none

wake_joiner_example :
    (t : Rt) × (wake_joiner (some 100) one_asleep ≡ ok tt t)
    × ((a : Ptr) → t.heap a ≡ (if a == 100 then live (woken sleeper) else one_asleep.heap a))
    × ((i : ℕ)
        → t.global.all_p i ≡ (
            if i == 0
            then with_ready env 100 (one_asleep.global.all_p 0)
            else one_asleep.global.all_p i))
    × (has (woken sleeper).status St.sleeping ≡ false)
    × (has (woken sleeper).status St.ready ≡ true)
unfolding has
wake_joiner_example = wake_joiner_lem ⦃e = env⦄ 100 0 one_asleep sleeper refl refl refl
