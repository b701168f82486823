-- ===== src/Timer/Signals.antt =====
-- Which threads a tick signals.
use uthread.Base.{
  ℕ, ◌+◌, ◌%◌, ◌≡◌, refl, none, some, List, [], ◌∷◌, ◌==◌, ltb, if◌then◌else◌, pos, arith,
  Bool-cases, inl, inr, update,
}
use uthread.Types.{Uthread, TimerNode}
use uthread.Machine.{Rt, ok, Call, live, Env, syscall, load}
use uthread.Timer.{tick, signal}
use uthread.Timer.Pending.{age, signal_due, walk-age}

-- Every node's uthread is alive and belongs to a p.
abbrev pub Served : Rt → List TimerNode → Type 0
Served s [] = Unit
Served s (n ∷ ns) =
    ((u : Uthread) × (i : ℕ) × (s.heap n.ut ≡ live u) × (u.p ≡ some i)) × Served s ns

-- the call made for a node that is due
unfoldable pub kill_of : Rt → TimerNode → List Call → List Call
kill_of s n tr = elim (s.heap n.ut) [
  | live u ↦
      if u.is_wating_yield_signal == 1
      then elim u.p [ none ↦ tr | some i ↦ Call.pthread_kill (s.global.all_p i).tid ∷ tr ]
      else tr
  | _ ↦ tr
]

-- the trace after the calls for all nodes that are due, in the order of the slot
unfoldable pub kills : Rt → List TimerNode → List Call → List Call
kills s [] tr = tr
kills s (n ∷ ns) tr = kills s ns (if ltb 0 n.rotation then tr else kill_of s n tr)

-- the state with another trace
abbrev pub traced : Rt → List Call → Rt
traced s tr = record s { trace = tr }

module _ ⦃e : Env⦄
    (kill : (tr : List Call) (tid : ℕ) → e.reply tr (Call.pthread_kill tid) ≡ pos 0) where
  signal_lem :
      (n : TimerNode) (s : Rt) (tr : List Call) (u : Uthread) (i : ℕ)
      → s.heap n.ut ≡ live u
      → u.p ≡ some i
      → signal n (traced s tr) ≡ ok tt (traced s (kill_of s n tr))
  unfolding signal kill_of load syscall
  signal_lem n s tr u i alive has_p = ground (arith, kill tr (s.global.all_p i).tid)

  signal_due_lem :
      (ns : List TimerNode) (s : Rt) (tr : List Call)
      → Served s ns
      → signal_due ns (traced s tr) ≡ ok tt (traced s (kills s ns tr))
  unfolding signal_due kills
  signal_due_lem [] s tr served = refl
  signal_due_lem (n ∷ ns) s tr ((u, i, alive, has_p), rest) = elim (Bool-cases (ltb 0 n.rotation)) [
    | inl later ↦ rw later (signal_due_lem ns s tr rest)
    | inr due ↦
        rw (due, signal_lem n s tr u i alive has_p) (signal_due_lem ns s (kill_of s n tr) rest)
  ]

  -- While the uthreads of its slot are alive and the kernel takes the signals, `tick` does not fail.
  -- It sends SIGUSR1 to the thread of the p of each uthread that is due and may be preempted, in the
  -- order of the slot, sends nothing else, and changes nothing but the wheel.
  pub tick_signals :
      (s : Rt)
      → let nodes = s.timer.slot s.timer.current in
        Served s nodes
        → tick s
          ≡ ok tt (record s {
            trace = kills s nodes s.trace;
            timer = record {
              slot = update s.timer.slot s.timer.current (age nodes);
              current = (s.timer.current + 1) % 10;
            };
          })
  unfolding tick
  tick_signals s served =
      let nodes = s.timer.slot s.timer.current in
      rw (walk-age nodes s, signal_due_lem nodes s s.trace served)
