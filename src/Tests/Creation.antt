-- ===== src/Tests/Creation.antt =====
-- The theorems on starting the runtime and on creating uthreads, at concrete states.
use uthread.Base.{ℕ, ◌<◌, ◌≡◌, refl, some, none, [], ◌∷◌, ℤ, pos, minus_one}
use uthread.Types.{zero_uthread}
use uthread.Machine.{Rt, ok, live, freed, Call, Env}
use uthread.Tests.Setup.{env, granted, a_uthread, one, state}
use uthread.Create.{create_on, runtime_init}
use uthread.Create.Started.{IsIdle}
use uthread.Create.Bound.{runtime_init_lem}
use uthread.Create.Made.{made, counted, enqueued, create_on_lem, create_on_no_stack}

abbrev start : Rt
start = state (one 100 a_uthread) (100 ∷ []) none

create_on_example :
    (t : Rt) × (create_on 0 4194400 9 start ≡ ok (pos 0, some 4096) t)
    × (t.heap 4096 ≡ live (made 7 8192 (some 0) 4194400 9))
    × (t.global ≡ enqueued 0 4096 (counted start.global))
create_on_example =
    create_on_lem ⦃e = env⦄ (λ tr. (refl, refl)) 0 0 4194400 9 4096 8192 start refl refl refl refl
      refl

-- a kernel with no room for stacks
abbrev no_stack : Call → ℤ
no_stack (Call.posix_memalign n) = pos 0
no_stack c = granted c

abbrev full : Env
full = record env { reply = λ tr c. no_stack c }

create_on_no_stack_example :
    (t : Rt) × (create_on ⦃e = full⦄ 0 4194400 9 start ≡ ok (minus_one, none) t)
    × (t.heap 4096 ≡ freed (record zero_uthread { id = 7 }))
    × (t.global ≡ counted start.global)
create_on_no_stack_example =
    create_on_no_stack ⦃e = full⦄ (λ tr. (refl, refl)) 0 4194400 9 4096 start refl refl refl

runtime_init_example :
    (r : Rt) × (runtime_init start ≡ ok 0 r)
    × (r.tls ≡ some 0)
    × ((r.global.all_sched 0).p ≡ some 0)
    × ((r.global.all_p 0).sched ≡ some 0)
    × (r.global.sched_idle ≡ 1 ∷ 2 ∷ 3 ∷ [])
    × (r.global.p_idle ≡ 1 ∷ 2 ∷ 3 ∷ [])
    × ((k : ℕ) → k < 4 → IsIdle (r.global.all_p k))
    × (r.global.next_ut_id ≡ 0)
    × (r.timer.current ≡ 0)
runtime_init_example = runtime_init_lem ⦃e = env⦄ (λ tr. refl) start
