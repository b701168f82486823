-- ===== src/Tests/Waits.antt =====
-- The theorems on sleeping and waiting twice, at concrete states.
use uthread.Base.{◌≡◌, refl, some, List, [], ◌∷◌, if◌then◌else◌, ℤ, pos, minus_one, arith, update}
use uthread.Types.{Uthread}
use uthread.Machine.{Rt, live, Env}
use uthread.Tests.Setup.{env, granted, a_uthread, one, p_with, globals, state, after}
use uthread.Sleep.Collide.{sched_sleep-collides}
use uthread.Sleep.Twice.{registered, second_wait_aborts}
use uthread.Status.{rd, wr, set_bit}
use uthread.Machine.{store, load, syscall, fault, assert_failed, Call}
use uthread.Sleep.{sched_sleep, wait_enter, register_event}
use uthread.Tests.Trees.{forest, forest_gives, pair}

-- 100 goes to sleep until the microsecond until which 101 sleeps
abbrev woken_at : Uthread
woken_at = record a_uthread { status = 8; wakeup_time_usec = 1005000 }

abbrev drowsy : Rt
drowsy = record (state (update (one 100 a_uthread) 101 (live woken_at)) [] (some 100)) {
  global = record (globals [] (some 100)) {
    all_p = λ i. record (p_with []) { sleeping = 101 ∷ [] };
  };
}

sched_sleep-collides_example : sched_sleep ⦃e = forest⦄ 100 5 drowsy ≡ fault assert_failed
sched_sleep-collides_example =
    sched_sleep-collides ⦃e = forest⦄ forest_gives 100 101 5 0 drowsy a_uthread woken_at refl refl
      refl refl (omega arith) refl

-- an epoll that knows what is registered
abbrev asked : Call → List Call → ℤ
asked (Call.epoll_add p fd ev) tr = if registered p fd tr then minus_one else pos 0
asked c tr = granted c

abbrev strict : Env
strict = record forest { reply = λ tr c. asked c tr }

-- 100 waits to read from descriptor 5
abbrev reading : Rt
reading = after (wait_enter ⦃e = strict⦄ 100 (pos 5) rd pair) pair

second_wait_aborts_example :
    register_event ⦃e = strict⦄ 101 (pos 5) wr 0 reading ≡ fault assert_failed
unfolding wait_enter syscall store load set_bit
second_wait_aborts_example =
    second_wait_aborts ⦃e = strict⦄ (λ tr p fd ev h. rw h) 0 0 0 100 101 (pos 5) rd wr 0 pair
      reading reading a_uthread [] refl refl refl refl refl refl refl refl refl refl
