-- ===== src/Turns/Returns.antt =====
-- What the scheduler does when a uthread has switched back to it.
use uthread.Turns.Number.{store-global}
use uthread.Base.{
  ℕ, ◌≡◌, refl, sym, ap, ◌∙◌, Option, some, ◌==◌, update, Bool-cases, inl, inr, minus_one,
}
use uthread.Types.{Ptr, Sched, GlobalData}
use uthread.Machine.{Rt, ok, Env, store, status_clear, bind-eq-ok, ◌>>◌}
use uthread.Lifecycle.{yield_enter, exit_enter}
use uthread.Sleep.{sleep_enter, wait_enter, wait_leave, wait_bit}
use uthread.Join.{join_mark, join_msec}
use uthread.Create.Made.{create_on-made, create_on_unmade}
use uthread.Resume.{resume_leave}
use uthread.Resume.Leave.{Mutex}
use uthread.Turns.{Place, in_run, Represents}
use uthread.Turns.Facts.{Represents-running}
use uthread.Turns.Trees.{RbLaws}
use uthread.Turns.Yield.{turn_yield, turn_yield-Represents}
use uthread.Turns.Sleep.{turn_sleep}
use uthread.Turns.Waits.{turn_wait, turn_sleep-Represents, turn_wait-Represents}
use uthread.Turns.Joins.{turn_join, turn_join-Represents}
use uthread.Turns.Exits.{turn_exit, turn_exit-Represents}
use uthread.Turns.Step.{
  Step, acts, Act, yields, sleeps, waits, joins, exits, creates, creates_none, begins_main, wakes,
  waited, detaches, passes,
}
use uthread.Turns.Main.{create_main_enter-made}
use uthread.Turns.Acts.{Act-Moved}
use uthread.Turns.Reaches.{Reach, goes_on}
use uthread.Turns.Guest.{
  Ran, acting, yielding, dozing, awaiting, joining, ending, then_leave, still_runs, nobody_left,
  Rested,
}

module _ ⦃e : Env⦄ (laws : RbLaws e) (mutex : Mutex e) (i j : ℕ) where
  -- A uthread that acts does not change what the schedulers run.
  Act-scheds :
      (place : Ptr → Place) (s t : Rt)
      → Represents i j place s
      → Act i j s t
      → t.global.all_sched ≡ s.global.all_sched
  unfolding wait_leave
  Act-scheds place s t before (creates func arg a r out block there dead stack room run) =
      let (n, done, _, global, _, _) =
        create_on-made mutex i j func arg a r s before.bound block there stack room in
      let is : n ≡ t = cc in
      ap (λ (q : Rt). q.global.all_sched) (sym is) ∙ ap (λ (g : GlobalData). g.all_sched) global
  Act-scheds place s t before (creates_none func arg a out block there dead full run) =
      let (n, done, _, global, _, _) = create_on_unmade mutex i func arg a s block there full in
      let is : n ≡ t = cc in
      ap (λ (q : Rt). q.global.all_sched) (sym is) ∙ ap (λ (g : GlobalData). g.all_sched) global
  Act-scheds place s t before (begins_main a out block there dead run) =
      let (n, done, _, _, global) = create_main_enter-made i j s a before.bound block there in
      let is : n ≡ t = cc in
      ap (λ (q : Rt). q.global.all_sched) (sym is) ∙ ap (λ (g : GlobalData). g.all_sched) global
  Act-scheds place s t before (wakes a cur run) =
      ap (λ (g : GlobalData). g.all_sched) (store-global a _ s t run)
  Act-scheds place s t before (waited a ev cur run) =
      let (_, r, named, cleared) =
        bind-eq-ok (store a (λ v. record v { fd_wait = minus_one }) s)
          (λ _. status_clear a (wait_bit ev)) run in
      ap (λ (g : GlobalData). g.all_sched)
        (store-global a _ r t cleared ∙ store-global a _ s r named)
  Act-scheds place s t before (detaches b w alive run) =
      ap (λ (g : GlobalData). g.all_sched) (store-global b _ s t run)
  Act-scheds place s t before (passes passed) = passed.scheds

  rest :
      (q : Ptr → Place) (s m r : Rt)
      → Represents i j q r
      → ((b : Ptr) → in_run (q b) ≡ 0)
      → Reach i j s m
      → Step i j m r
      → Rested i j s r
  rest q s m r after nobody reached step =
      (q, after, still_runs i j q r after nobody, goes_on reached step)

  exits_Rested :
      (place : Ptr → Place) (s0 s t r : Rt) (a : Ptr) (retval : Option ℕ)
      → Represents i j place s
      → Reach i j s0 s
      → (s.global.all_sched i).cur_uthread ≡ some a
      → turn_exit i retval s ≡ ok tt r
      → Rested i j s0 r
  exits_Rested place s0 s t r a retval before reached cur run =
      let (runs, (u, alive, _, _, _)) = Represents-running i j place s a before cur in
      elim (turn_exit-Represents laws mutex i j place s a u before cur alive retval r run) [
        | inl (_, after, _) ↦
            rest (update place a Place.gone) s0 s r after
              (nobody_left i j place s a Place.gone before cur refl) reached
              (exits a retval cur run)
        | inr (x, lies, after, _, _) ↦
            rest (update (update place x Place.queued) a Place.gone) s0 s r after
              (λ b. elim (Bool-cases (b == a)) [
                | inl hit ↦ rw hit
                | inr miss ↦ elim (Bool-cases (b == x)) [
                  | inl same ↦ rw (miss, same)
                  | inr far ↦
                      rw (miss, far)
                        (rw miss at (nobody_left i j place s a Place.gone before cur refl b))
                ]
              ])
              reached (exits a retval cur run)
      ]

  pub ran_Rested :
      (s0 t r : Rt) (a : Ptr) (place : Ptr → Place) (s : Rt)
      → Represents i j place s
      → Reach i j s0 s
      → (s.global.all_sched i).cur_uthread ≡ some a
      → Ran i j a t s
      → resume_leave i a t ≡ ok tt r
      → Rested i j s0 r
  unfolding turn_yield turn_sleep turn_wait turn_join turn_exit
  ran_Rested s0 t r a place s before reached cur (acting {m = m} act ran) left =
      let (q, _, there, _, _, _) = Act-Moved laws mutex i j place s m before act in
      ran_Rested s0 t r a q m there (goes_on reached (acts act))
        (ap (λ (f : ℕ → Sched). (f i).cur_uthread) (Act-scheds place s m before act) ∙ cur) ran left
  ran_Rested s0 t r a place s before reached cur (yielding ran) left =
      let turn : turn_yield i s ≡ ok tt r = rw ran left in
      rest (update place a Place.queued) s0 s r
        (turn_yield-Represents i j place s r a before cur turn).0
        (nobody_left i j place s a Place.queued before cur refl) reached (yields a cur turn)
  ran_Rested s0 t r a place s before reached cur (dozing ms free ran) left =
      let turn : turn_sleep i a ms s ≡ ok tt r = then_leave i a (sleep_enter a ms) s t r ran left in
      rest (update place a Place.asleep) s0 s r
        (turn_sleep-Represents laws i j place s r a ms before cur free turn).0
        (nobody_left i j place s a Place.asleep before cur refl) reached (sleeps a ms cur free turn)
  ran_Rested s0 t r a place s before reached cur (awaiting fd ev ms alone ran) left =
      let (_, n, entered, slept) =
        bind-eq-ok (wait_enter a fd ev s) (λ _. (do sleep_enter a ms; yield_enter)) ran in
      let turn : turn_wait i a fd ev ms s ≡ ok tt r =
        rw entered (then_leave i a (sleep_enter a ms) n t r slept left) in
      rest (update place a Place.asleep) s0 s r
        (turn_wait-Represents laws i j place s r a fd ev ms before cur alone turn).0
        (nobody_left i j place s a Place.asleep before cur refl) reached
        (waits a fd ev ms cur alone turn)
  ran_Rested s0 t r a place s before reached cur (joining b retval w block apart unjoined free ran)
        left =
      let (_, n, marked, slept) =
        bind-eq-ok (join_mark b a retval s) (λ _. (do sleep_enter a join_msec; yield_enter)) ran in
      let turn : turn_join i a b retval s ≡ ok tt r =
        rw marked (then_leave i a (sleep_enter a join_msec) n t r slept left) in
      rest (update place a Place.asleep) s0 s r
        (turn_join-Represents laws i j place s r a b retval w before cur block apart unjoined free
          turn).0
        (nobody_left i j place s a Place.asleep before cur refl) reached
        (joins a b retval w cur block apart unjoined free turn)
  ran_Rested s0 t r a place s before reached cur (ending retval ran) left =
      exits_Rested place s0 s t r a retval before reached cur
        (then_leave i a (exit_enter retval) s t r ran left)
