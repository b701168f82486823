-- ===== src/Tests/Calls.antt =====
-- The theorems on ids, joining, the poller's wait and the keys of descriptors, at concrete states.
use uthread.Base.{update, ◌-◌, ◌^◌, ◌≡◌, refl, some, none, [], negsuc, minus_one, arith}
use uthread.Status.{has}
use uthread.Types.{Uthread}
use uthread.Machine.{live, Rt, ok, fault, assert_failed}
use uthread.Tests.Setup.{env, a_uthread, one, state}
use uthread.Sleep.{fd_key, fd_event, fd_only}
use uthread.Sleep.Key.{fd_key_round_trip}
use uthread.Event.{resume_expired_one}
use uthread.Event.Expired.{expired_without_fd_aborts}
use uthread.Poll.{time_until}
use uthread.Poll.Timeout.{read_twice, time_until_lem}
use uthread.Join.{uthread_join, einval}
use uthread.Join.Refused.{failed, join_refuses}

abbrev start : Uthread → Rt
start u = state (one 101 u) [] (some 100)

abbrev detached : Uthread
detached = record a_uthread { status = 18 }

join_refuses_example :
    uthread_join 101 none (start detached) ≡ ok minus_one (failed einval (start detached))
unfolding has
join_refuses_example =
    join_refuses ⦃e = env⦄ 0 100 101 none (start detached) detached (refl, refl, refl) refl

abbrev both : Rt
both = state (update (one 101 a_uthread) 102 (live a_uthread)) [] (some 100)

abbrev timed : Uthread
timed = record a_uthread { status = 8; wakeup_time_usec = 2000000; fd_wait = minus_one }

time_until_example :
    time_until (some 101) (start timed) ≡ ok (2 ^ 64 - 1000000) (read_twice (start timed))
time_until_example =
    time_until_lem ⦃e = env⦄ 101 (start timed) timed refl (omega arith) (omega arith)

expired_without_fd_example : resume_expired_one 101 (start timed) ≡ fault assert_failed
expired_without_fd_example =
    expired_without_fd_aborts ⦃e = env⦄ (λ tr poller. refl) 101 0 (start timed) timed refl refl refl

fd_key_example : (fd_only (fd_key (negsuc 4) 1) ≡ negsuc 4) × (fd_event (fd_key (negsuc 4) 1) ≡ 1)
fd_key_example = fd_key_round_trip (negsuc 4) 1 (omega arith)
