-- ===== src/Tests/Timers.antt =====
-- The theorems on the wheel, at concrete states.
use uthread.Base.{◌+◌, ◌≡◌, refl, none, List, [], ◌∷◌, arith, update}
use uthread.Types.{Uthread, TimerNode}
use uthread.Machine.{Rt, ok, Call, syscall}
use uthread.Tests.Setup.{env, a_uthread, one, state, after}
use uthread.Timer.{tick, add_timer, walk}
use uthread.Timer.Pending.{pending, ticks, age, pending-add_timer-ticks}
use uthread.Timer.Signals.{kills, kill_of, tick_signals}

abbrev start : Rt
start = state (one 100 a_uthread) [] none

abbrev armed_once : Rt
armed_once = after (add_timer 25 100 start) start

abbrev later : Rt
later = after (ticks 23 armed_once) armed_once

pending-add_timer-ticks_example : pending later.timer 100 2 ≡ 1 + pending start.timer 100 25
unfolding add_timer ticks tick walk syscall
pending-add_timer-ticks_example =
    pending-add_timer-ticks ⦃e = env⦄ 25 23 100 100 start armed_once later 2 (omega arith) refl refl

abbrev preempted : Uthread
preempted = record a_uthread { is_wating_yield_signal = 1 }

-- one uthread whose signal is due and one whose signal is not
abbrev nodes : List TimerNode
nodes = record { rotation = 0; ut = 100 } ∷ record { rotation = 2; ut = 100 } ∷ []

abbrev due : Rt
due = record (state (one 100 preempted) [] none) {
  timer = record { slot = λ i. nodes; current = 8 };
}

tick_signals_example :
    tick due
    ≡ ok tt (record due {
      trace = Call.pthread_kill 77 ∷ [];
      timer = record { slot = update due.timer.slot 8 (age nodes); current = 9 };
    })
unfolding kills kill_of
tick_signals_example =
    tick_signals ⦃e = env⦄ (λ tr tid. refl) due
      ((preempted, 0, refl, refl), ((preempted, 0, refl, refl), tt))
