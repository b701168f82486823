-- ===== src/Turns/Rounds.antt =====
-- uthread_sched.c: the rounds of _sched_run, from one to the end of the process.
use uthread.Turns.Tally.{Tally, NobodyLeft, Reach-Tally, Tally-NobodyLeft}
use uthread.Base.{
  List, ℕ, zero, suc, ◌≡◌, none, not, ◌==◌, if◌then◌else◌, arith, Bool-cases, inl, inr, ◌⊎◌,
}
use uthread.Types.{Ptr}
use uthread.Machine.{M, Rt, ok, stop, Env, bind-eq-ok, bind-eq-stop, ◌>>=◌}
use uthread.Event.{resume_expired}
use uthread.Loop.{
  sched_work_done, serve, sched_round, sched_loop, sched_idle_step, exit_process, has_work, has_p,
}
use uthread.Loop.Round.{has_p_lem}
use uthread.Resume.Leave.{Mutex}
use uthread.Turns.{Place, Represents}
use uthread.Turns.Trees.{RbLaws}
use uthread.Turns.Reaches.{failures, begins}
use uthread.Turns.Guest.{Rested}
use uthread.Turns.Loops.{Guests}
use uthread.Turns.Round.{serve-Rested}
use uthread.Turns.Expiring.{RefusesNegative, resume_expired-Rested}

module _ ⦃e : Env⦄ (i j : ℕ) where
  -- The process has ended in `t` with status `n`: from a state `m` that the turns lead to from `s`, by
  -- the scheduler, where no uthread is counted, or in the round that began there.
  abbrev StopsFrom : Rt → ℕ → Rt → Type 0
  StopsFrom s n t =
      (m : Rt) × Rested i j s m
      × (((m.global.n_uthread ≡ 0) × (exit_process m ≡ stop n t))
          ⊎ ((fuel : ℕ) × (sched_round fuel i m ≡ stop n t)))

  -- The same, where `f` creations had failed before `s`, and in the first case nobody is alive, or the
  -- counter has wrapped round.
  abbrev pub EndsFrom : ℕ → Rt → ℕ → Rt → Type 0
  EndsFrom f s n t =
      (m : Rt) × (now : Rested i j s m) × (((m.global.n_uthread ≡ 0)
          × NobodyLeft (failures now.3 f) m
          × (exit_process m ≡ stop n t))
        ⊎ ((fuel : ℕ) × (sched_round fuel i m ≡ stop n t)))

module _ ⦃e : Env⦄ (laws : RbLaws e) (mutex : Mutex e) (refuses : RefusesNegative e) (i j : ℕ)
    (guests : Guests e i j) where
  round_Rested :
      (fuel : ℕ) (s0 s t : Rt) → Rested i j s0 s → sched_round fuel i s ≡ ok tt t → Rested i j s0 t
  unfolding sched_round
  round_Rested fuel s0 s t now run =
      let (_, m, expired, served) = bind-eq-ok (resume_expired fuel i s) (λ _. serve fuel i) run in
      serve-Rested laws mutex i j guests fuel s0 m t
        (resume_expired-Rested laws mutex refuses i j guests fuel s0 s m now expired) served

  -- Over a lawful search tree, a mutex that works and a kernel that removes no negative descriptor, with
  -- one p, and while each switch of the scheduler to a uthread runs, up to its switch back, what a
  -- uthread does by the calls of the library: from a state in which each uthread has one place and none
  -- runs, a round of the scheduler that ends, over the uthreads whose time is up, the ready ones, the
  -- poll and the new events, is a sequence of turns of the machine, and in the state that it ends in each
  -- uthread has one place again and none runs.
  pub sched_round-Rested :
      (fuel : ℕ) (place : Ptr → Place) (s t : Rt)
      → Represents i j place s
      → (s.global.all_sched i).cur_uthread ≡ none
      → sched_round fuel i s ≡ ok tt t
      → Rested i j s t
  sched_round-Rested fuel place s t before idle run =
      round_Rested fuel s s t (place, before, idle, begins) run

  idle_ends :
      (again : M (Unit {0})) (s0 s t : Rt) (n : ℕ)
      → Rested i j s0 s
      → (again s ≡ stop n t → StopsFrom i j s0 n t)
      → sched_idle_step again s ≡ stop n t
      → StopsFrom i j s0 n t
  unfolding sched_idle_step
  idle_ends again s0 s t n now next run = elim (Bool-cases (s.global.n_uthread == 0)) [
    | inl nobody ↦ (s, now, inl (ground arith, rw nobody at run))
    | inr some_left ↦ next (rw some_left at run)
  ]

  loop_ends :
      (fuel : ℕ) (s0 s t : Rt) (n : ℕ)
      → Rested i j s0 s
      → sched_loop fuel i s ≡ stop n t
      → StopsFrom i j s0 n t
  unfolding sched_loop has_work
  loop_ends zero s0 s t n now run = cc
  loop_ends (suc fuel) s0 s t n now run =
      let (place, before, _, _) = now in
      let next = λ (h : sched_loop fuel i s ≡ stop n t). loop_ends fuel s0 s t n now h in
      let opened = rw before.bound at run in
      elim (Bool-cases (not (sched_work_done (s.global.all_p j)))) [
        | inr idle ↦ idle_ends (sched_loop fuel i) s0 s t n now next (rw idle at opened)
        | inl work ↦
            let going = rw work at opened in
            elim (bind-eq-stop (sched_round fuel i s)
              (λ _. (do
                bound ← has_p i
                if bound then sched_loop fuel i else sched_idle_step (sched_loop fuel i)))
              going) [
                | inl ended ↦ (s, now, inr (fuel, ended))
                | inr (_, m, ran, more) ↦
                    let there = round_Rested fuel s0 s m now ran in
                    let (_, after, _, _) = there in
                    loop_ends fuel s0 m t n there (rw (has_p_lem i m after.bound) at more)
              ]
      ]

  -- Over a lawful search tree, a mutex that works and a kernel that removes no negative descriptor, with
  -- one p, and while each switch of the scheduler to a uthread runs, up to its switch back, what a
  -- uthread does by the calls of the library: if the scheduler's loop ends the process, begun in a state
  -- that turns have led to from one where each uthread has one place and n_uthread is, modulo 2 ^ 32,
  -- the number of the live uthreads and `f`, then it does so in a state that turns lead to, in which each
  -- uthread has one place and none runs: either n_uthread is 0 and no uthread is alive, or these and `f`
  -- and the creations that failed in the turns are 2 ^ 32 or more, or within the round that begins there.
  pub sched_loop-EndsFrom :
      (fuel : ℕ) (place : Ptr → Place) (s0 s t : Rt) (n : ℕ) (all : List Ptr) (f : ℕ)
      → Represents i j place s0
      → Tally s0 all f
      → Rested i j s0 s
      → sched_loop fuel i s ≡ stop n t
      → EndsFrom i j f s0 n t
  sched_loop-EndsFrom fuel place s0 s t n all f before tally start run =
      let (m, now, how) = loop_ends fuel s0 s t n start run in
      elim how [
        | inl (nobody, ended) ↦
            let (all', tally') = Reach-Tally laws mutex i j place s0 m all f before tally now.3 in
            (m, now, inl (nobody, Tally-NobodyLeft m all' (failures now.3 f) tally' nobody, ended))
        | inr within ↦ (m, now, inr within)
      ]
