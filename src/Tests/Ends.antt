-- ===== src/Tests/Ends.antt =====
-- The theorems on the end of the process and on disk calls, at concrete states.
use uthread.Base.{◌≡◌, refl, some, none, [], ◌∷◌, pos, arith, update}
use uthread.Machine.{Rt, stop, live, absent, Call, syscall}
use uthread.Tests.Setup.{env, a_uthread, one, state}
use uthread.Loop.{sched_loop, has_work, sched_work_done}
use uthread.Loop.End.{frees, sched_loop-exits}
use uthread.DiskIo.{pthread_disk_read, pthread_disk_write}
use uthread.DiskIo.Blocking.{disk_call_moves}

abbrev pair : Rt
pair = state (update (one 100 a_uthread) 101 (live a_uthread)) (101 ∷ []) (some 100)

abbrev quiet : Rt
quiet = record (state (λ a. absent) [] none) {
  global = record ((state (λ a. absent) [] none).global) {
    n_uthread = 0;
    sched_with_stack = 0 ∷ 1 ∷ [];
  };
}

sched_loop-exits_example :
    sched_loop 1 0 quiet
    ≡ stop 0 (record quiet { trace = Call.free_stack 0 ∷ Call.free_stack 0 ∷ Call.mutex_lock ∷ [] })
unfolding has_work sched_work_done frees
sched_loop-exits_example = sched_loop-exits ⦃e = env⦄ (λ tr. (refl, refl)) 0 0 quiet refl refl

disk_call_moves_example :
    (t : Rt) × (pthread_disk_read (pos 5) 10 pair ≡ syscall (Call.disk_read (pos 5) 10) t)
    × (pthread_disk_write (pos 5) 10 pair ≡ syscall (Call.disk_write (pos 5) 10) t)
    × ((t.global.all_sched 1).p ≡ some 0)
    × ((t.global.all_p 0).sched ≡ some 1)
    × ((t.global.all_sched 0).p ≡ none)
    × ((t.global.all_p 0).ready ≡ 101 ∷ [])
    × (t.global.sched_idle ≡ [])
disk_call_moves_example =
    disk_call_moves ⦃e = env⦄ 0 100 a_uthread pair (refl, refl, refl) (λ tr n. refl) 0 1 [] (pos 5)
      10 refl refl refl (λ h. omega arith)
