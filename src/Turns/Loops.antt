-- ===== src/Turns/Loops.antt =====
-- uthread_sched.c: the loop of _sched_run over the ready queue, as a sequence of turns.
use uthread.Turns.Number.{store-global}
use mathlib.Core.Path.{subst}
use uthread.Base.{
  ℕ, zero, suc, ◌≡◌, refl, ap, ◌∙◌, Option, some, Bool, not, List, [], ◌∷◌, ==_refl, if◌then◌else◌,
  update, arith, Bool-cases, inl, inr,
}
use uthread.Status.{has}
use uthread.Status.St
use uthread.Types.{Ptr, Uthread, Sched, GlobalData}
use uthread.Machine.{
  M, Rt, ok, Env, of_ut, of_sched, store, when, set_sched, set_p, load, bind-eq-ok, deref-some,
  ◌>>=◌, ◌>>◌, pure,
}
use uthread.Timer.{add_timer}
use uthread.Lifecycle.{uthread_init}
use uthread.Resume.{resume_enter, resume_leave, uthread_resume}
use uthread.Resume.Leave.{Mutex}
use uthread.Loop.Round.{has_p_lem}
use uthread.Loop.{run_ready, run_first, same, has_p}
use uthread.Turns.{Place, Represents}
use uthread.Turns.Trees.{RbLaws}
use uthread.Turns.Enter.{add_timer_keeps}
use uthread.Turns.Runs.{turn_resume}
use uthread.Turns.Step.{Passed, Step, acts, passes, resumes}
use uthread.Turns.Refines.{Step-refines}
use uthread.Turns.Acts.{pass-Represents}
use uthread.Turns.Reaches.{Reach, goes_on}
use uthread.Turns.Guest.{Ran, Rested}
use uthread.Turns.Returns.{ran_Rested}

-- Whatever the scheduler switches to, the uthread runs as uthreads do.
abbrev pub Guests : Env → ℕ → ℕ → Type 0
Guests e i j =
    (a : Ptr) (s t : Rt)
    → (s.global.all_sched i).cur_uthread ≡ some a
    → e.switch (of_ut a) (of_sched i) s ≡ ok tt t
    → Ran ⦃e = e⦄ i j a t s

module _ ⦃e : Env⦄ where
  -- A uthread that is resumed is the one that runs.
  pub resume_enter-cur :
      (i : ℕ) (a : Ptr) (s t : Rt)
      → resume_enter i a s ≡ ok tt t
      → (t.global.all_sched i).cur_uthread ≡ some a
  unfolding resume_enter
  resume_enter-cur i a s t run =
      let mark = λ (v : Uthread). record v { is_wating_yield_signal = 1 } in
      let after = (do
        set_sched i (λ sc. record sc { cur_uthread = some a })
        store a mark
        add_timer 1 a) in
      let (u, s1, _, r1) = bind-eq-ok (load a s) _ run in
      let (_, s2, _, r2) =
        bind-eq-ok (when (has u.status St.new) (uthread_init a) s1) (λ _. after) r1 in
      let (_, s3, chosen, r3) =
        bind-eq-ok (set_sched i (λ sc. record sc { cur_uthread = some a }) s2)
          (λ _. (do store a mark; add_timer 1 a)) r2 in
      let (_, s4, stored, r4) = bind-eq-ok (store a mark s3) (λ _. add_timer 1 a) r3 in
      let (_, global, _) = add_timer_keeps 1 a s4 t r4 in
      let set : (s3.global.all_sched i).cur_uthread ≡ some a = ground (arith, chosen, ==_refl i) in
      ap (λ (g : GlobalData). (g.all_sched i).cur_uthread) (global ∙ store-global a _ s3 s4 stored)
      ∙ set

  -- code that touches nothing of the places
  pub pass_Rested : (i j : ℕ) (s0 s t : Rt) → Rested i j s0 s → Passed j s t → Rested i j s0 t
  pass_Rested i j s0 s t (place, before, idle, reached) passed = (
    place,
    pass-Represents i j place s t before passed,
    ap (λ (f : ℕ → Sched). (f i).cur_uthread) passed.scheds ∙ idle,
    goes_on reached (acts (passes passed)),
  )

module _ ⦃e : Env⦄ (laws : RbLaws e) (mutex : Mutex e) (i j : ℕ) (guests : Guests e i j) where
  -- From a state that the runtime has reached, in which `a` runs, the scheduler switches to it.
  pub switched :
      (s0 s r : Rt) (a : Ptr) (place : Ptr → Place)
      → Represents i j place s
      → Reach i j s0 s
      → (s.global.all_sched i).cur_uthread ≡ some a
      → (do e.switch (of_ut a) (of_sched i); resume_leave i a) s ≡ ok tt r
      → Rested i j s0 r
  switched s0 s r a place before reached cur run =
      let (_, t, there, left) =
        bind-eq-ok (e.switch (of_ut a) (of_sched i) s) (λ _. resume_leave i a) run in
      ran_Rested laws mutex i j s0 t r a place s before reached cur (guests a s t cur there) left

  -- the first of the ready queue is resumed
  resumed_Rested :
      (s0 s r : Rt) (a : Ptr) (rest : List Ptr)
      → Rested i j s0 s
      → (s.global.all_p j).ready ≡ a ∷ rest
      → (do set_p j (λ q. record q { ready = rest }); uthread_resume a) s ≡ ok tt r
      → Rested i j s0 r
  unfolding uthread_resume turn_resume
  resumed_Rested s0 s r a rest (place, before, idle, reached) first run =
      let popped : Rt = record s {
        global = record (s.global) {
          all_p = update s.global.all_p j (record (s.global.all_p j) { ready = rest });
        };
      } in
      let inner = rw (deref-some s.tls popped before.own) at run in
      let (_, q, entered, more) =
        bind-eq-ok (resume_enter i a popped)
          (λ _. (do e.switch (of_ut a) (of_sched i); resume_leave i a)) inner in
      let step : Step i j s q = resumes a rest idle first entered in
      let (p, _, there, _, _) = Step-refines laws mutex i j place s q before step in
      switched s0 q r a p there (goes_on reached step) (resume_enter-cur i a popped q entered) more

  -- the loop over the ready queue
  run_first_Rested :
      (s0 : Rt) (last : Option Ptr) (again : M (Unit {0}))
      → ((m t : Rt) → Rested i j s0 m → again m ≡ ok tt t → Rested i j s0 t)
      → (l : List Ptr) (s t : Rt) → Rested i j s0 s
      → (s.global.all_p j).ready ≡ l
      → run_first again i last j l s ≡ ok tt t
      → Rested i j s0 t
  unfolding run_first
  run_first_Rested s0 last again next [] s t now first run =
      let same_state : s ≡ t = cc in subst (Rested i j s0) same_state now
  run_first_Rested s0 last again next (a ∷ rest) s t now first run =
      let popped : Rt = record s {
        global = record (s.global) {
          all_p = update s.global.all_p j (record (s.global.all_p j) { ready = rest });
        };
      } in
      let after = λ (b : Bool). if not b then pure tt else if same a last then pure tt else again in
      let (_, m, resumed, more) =
        bind-eq-ok (uthread_resume a popped) (λ _. (do bound ← has_p i; after bound)) run in
      let (place, there, idle, reached) = resumed_Rested s0 s m a rest now first resumed in
      let left = rw (has_p_lem i m there.bound) at more in
      elim (Bool-cases (same a last)) [
        | inl stops ↦
            let done = rw stops at left in
            let same_state : m ≡ t = cc in
            subst (Rested i j s0) same_state (place, there, idle, reached)
        | inr goes ↦ next m t (place, there, idle, reached) (rw goes at left)
      ]

  pub run_ready-Rested :
      (fuel : ℕ) (s0 s t : Rt) (last : Option Ptr)
      → Rested i j s0 s
      → run_ready fuel i last s ≡ ok tt t
      → Rested i j s0 t
  unfolding run_ready
  run_ready-Rested zero s0 s t last now run = cc
  run_ready-Rested (suc fuel) s0 s t last now run =
      let (place, before, idle, reached) = now in
      let opened = rw (deref-some (s.global.all_sched i).p s before.bound) at run in
      run_first_Rested s0 last (run_ready fuel i last)
        (λ m r there more. run_ready-Rested fuel s0 m r last there more) (s.global.all_p j).ready s
        t now refl opened
