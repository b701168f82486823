-- ===== src/Loop/End.antt =====
-- How the loop of a scheduler without work ends.
use uthread.Base.{ℕ, suc, ◌≡◌, refl, true, false, ◌==◌, List, [], ◌∷◌, arith}
use uthread.Types.{GlobalData}
use uthread.Machine.{Rt, ok, stop, Call, Env, syscall_zero}
use uthread.Loop.{has_work, free_source, exit_process, sched_idle_step, sched_loop}
use uthread.Resume.Leave.{Mutex}

-- the calls that free the stacks of the schedulers, one after another
unfoldable pub frees : GlobalData → List ℕ → List Call → List Call
frees g [] tr = tr
frees g (i ∷ is) tr = frees g is (Call.free_stack (g.all_sched i).stack ∷ tr)

module _ ⦃e : Env⦄ where
  free_source_lem :
      (is : List ℕ) (s : Rt)
      → free_source is s ≡ ok tt (record s { trace = frees s.global is s.trace })
  unfolding free_source frees
  free_source_lem [] s = refl
  free_source_lem (i ∷ is) s =
      free_source_lem is
        (record s { trace = Call.free_stack (s.global.all_sched i).stack ∷ s.trace })

module _ ⦃e : Env⦄ (mutex : Mutex e) where
  -- A scheduler whose p is gone or has no uthread left ends the process, with status 0, when no
  -- uthread is left anywhere: it locks the mutex and frees the stack of every scheduler that has one,
  -- each once and in order.
  pub sched_loop-exits :
      (fuel i : ℕ) (s : Rt)
      → has_work i s ≡ ok false s
      → s.global.n_uthread ≡ 0
      → sched_loop (suc fuel) i s
        ≡ stop 0 (record s {
          trace = frees s.global s.global.sched_with_stack (Call.mutex_lock ∷ s.trace);
        })
  unfolding sched_loop sched_idle_step exit_process
  sched_loop-exits fuel i s idle none_left =
      let locked : Rt = record s { trace = Call.mutex_lock ∷ s.trace } in
      let zero : (s.global.n_uthread == 0) ≡ true = ground arith in
      rw (
        idle,
        zero,
        syscall_zero Call.mutex_lock s (mutex s.trace).0,
        free_source_lem s.global.sched_with_stack locked,
      )
