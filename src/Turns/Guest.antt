-- ===== src/Turns/Guest.antt =====
-- What a uthread does between the scheduler's switch to it and its switch back.
use uthread.Base.{
  ℕ, ◌≡◌, sym, ap, ◌∙◌, Option, none, some, false, ◌==◌, update, arith, Bool-cases, Option-cases,
  inl, inr, ℤ, minus_one,
}
use uthread.Status.{Event}
use uthread.Types.{Ptr, Uthread}
use uthread.Machine.{M, Rt, ok, live, Env, bind-eq-ok, ◌>>◌}
use uthread.Lifecycle.{yield_enter, exit_enter}
use uthread.Sleep.{sleep_enter, wait_enter}
use uthread.Join.{join_mark, join_msec}
use uthread.Resume.{resume_leave}
use uthread.Turns.{waits_for, Place, in_run, here, Represents}
use uthread.Turns.Facts.{Represents-running}
use uthread.Turns.Yield.{turn_yield}
use uthread.Turns.Keys.{Unwaited}
use uthread.Turns.Step.{Act}
use uthread.Turns.Reaches.{Reach}

module _ ⦃e : Env⦄ where
  -- From `s` to `t` the uthread `a` runs, and in the end switches back: it acts, and then yields, goes
  -- to sleep, waits for a descriptor, joins a uthread that nobody joined, or ends.
  pub data Ran (i j : ℕ) (a : Ptr) (t : Rt) : Rt → Type 0 where
    acting : {s m : Rt} → Act i j s m → Ran i j a t m → Ran i j a t s
    yielding : {s : Rt} → yield_enter s ≡ ok a t → Ran i j a t s
    dozing :
        {s : Rt} (ms : ℕ)
        → waits_for (s.heap a) ≡ minus_one
        → (do sleep_enter a ms; yield_enter) s ≡ ok a t
        → Ran i j a t s
    awaiting :
        {s : Rt} (fd : ℤ) (ev : Event) (ms : ℕ)
        → Unwaited j fd ev s
        → (do wait_enter a fd ev; sleep_enter a ms; yield_enter) s ≡ ok a t
        → Ran i j a t s
    joining :
        {s : Rt} (b : Ptr) (retval : Option ℕ) (w : Uthread)
        → s.heap b ≡ live w
        → (a == b) ≡ false
        → w.ut_joined ≡ none
        → waits_for (s.heap a) ≡ minus_one
        → (do join_mark b a retval; sleep_enter a join_msec; yield_enter) s ≡ ok a t
        → Ran i j a t s
    ending :
        {s : Rt} (retval : Option ℕ)
        → (do exit_enter retval; yield_enter) s ≡ ok a t
        → Ran i j a t s

  -- Two parts of a turn are the turn.
  pub then_leave :
      (i : ℕ) (a : Ptr) (m : M (Unit {0})) (s t r : Rt)
      → (do m; yield_enter) s ≡ ok a t
      → resume_leave i a t ≡ ok tt r
      → (do m; turn_yield i) s ≡ ok tt r
  unfolding turn_yield
  then_leave i a m s t r ran left =
      let (_, n, first, second) = bind-eq-ok (m s) (λ _. yield_enter) ran in rw (first, second) left

-- what stands where nobody runs
pub still_runs :
    (i j : ℕ) (place : Ptr → Place) (s : Rt)
    → Represents i j place s
    → ((b : Ptr) → in_run (place b) ≡ 0)
    → (s.global.all_sched i).cur_uthread ≡ none
still_runs i j place s before nobody = elim (Option-cases (s.global.all_sched i).cur_uthread) [
  | inl idle ↦ idle
  | inr (a, cur) ↦
      let (runs, _) = Represents-running i j place s a before cur in
      let wrong : 0 ≡ 1 = sym (nobody a) ∙ ap in_run runs in absurd (omega (arith, wrong))
]

-- When the one that runs stops, nobody runs.
pub nobody_left :
    (i j : ℕ) (place : Ptr → Place) (s : Rt) (a : Ptr) (to : Place)
    → Represents i j place s
    → (s.global.all_sched i).cur_uthread ≡ some a
    → in_run to ≡ 0
    → (b : Ptr) → in_run (update place a to b) ≡ 0
nobody_left i j place s a to before cur stops b = elim (Bool-cases (b == a)) [
  | inl hit ↦ rw hit stops
  | inr miss ↦
      let other : (a == b) ≡ false = ground arith in
      rw miss (sym (before.current b) ∙ ap (here b) cur ∙ rw other)
]

module _ ⦃e : Env⦄ (i j : ℕ) where
  -- From `s` on the runtime has come to `r`, where nobody runs.
  abbrev pub Rested : Rt → Rt → Type 0
  Rested s r =
      (q : Ptr → Place) × Represents i j q r
      × ((r.global.all_sched i).cur_uthread ≡ none)
      × Reach i j s r
