-- ===== src/DiskIo/HandOver.antt =====
-- uthread.c: handing the p over before a blocking call.
use uthread.Base.{
  ℕ, ◌≡◌, ◌≢◌, refl, none, some, false, ◌==◌, ==_refl, arith, List, ◌∷◌, pos, update,
}
use uthread.Types.{GlobalData, Sched}
use uthread.Machine.{Rt, ok, Call, Env, syscall_zero}
use uthread.DiskIo.{hand_over}

-- A thread can be created.
abbrev pub Threads : Env → Type 0
Threads e = (tr : List Call) (n : ℕ) → e.reply tr (Call.pthread_create n) ≡ pos 0

-- the global data after `hand_over`
abbrev handed : ℕ → ℕ → ℕ → List ℕ → GlobalData → GlobalData
handed i j n idle g =
    let taken : ℕ → Sched = update g.all_sched n (record (g.all_sched n) { p = some j }) in
    record g {
      all_sched = update taken i (record (taken i) { p = none });
      all_p = update g.all_p j (record (g.all_p j) { sched = some n });
      sched_idle = idle;
    }

module _ ⦃e : Env⦄ (threads : Threads e) where
  -- The first idle scheduler leaves the idle queue and takes the p of the running one: each points to
  -- the other, the running scheduler has no p any more, the ready queue comes along unchanged, and a
  -- thread is started for the new scheduler.
  pub hand_over_moves :
      (i j n : ℕ) (idle : List ℕ) (s : Rt)
      → i ≢ n
      → (t : Rt) × (hand_over i j (n ∷ idle) s ≡ ok tt t)
        × ((t.global.all_sched n).p ≡ some j)
        × ((t.global.all_p j).sched ≡ some n)
        × ((t.global.all_sched i).p ≡ none)
        × ((t.global.all_p j).ready ≡ (s.global.all_p j).ready)
        × (t.global.sched_idle ≡ idle)
        × (t.trace ≡ Call.pthread_create n ∷ s.trace)
  unfolding hand_over
  hand_over_moves i j n idle s apart =
      let g = handed i j n idle s.global in
      let given : Rt = record s { global = g } in
      let same : (n == i) ≡ false = ground arith in
      (
        record s { global = g; trace = Call.pthread_create n ∷ s.trace },
        rw (syscall_zero (Call.pthread_create n) given (threads s.trace n)),
        rw (same, ==_refl n),
        rw (==_refl j),
        rw (==_refl i),
        rw (==_refl j),
        refl,
        refl,
      )
