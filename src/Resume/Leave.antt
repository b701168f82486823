-- ===== src/Resume/Leave.antt =====
-- What `_uthread_resume` does with a uthread that has switched back.
use uthread.Base.{
  ℕ, ◌+◌, ◌-◌, ◌%◌, ◌^◌, ◌≡◌, refl, Option, none, some, true, false, List, [], ◌∷◌, ◌++◌, ◌==◌,
  if◌then◌else◌, pos, arith, Bool-cases, inl, inr, update,
}
use uthread.Status.{has}
use uthread.Status.St
use uthread.Types.{Ptr, Uthread, GlobalData}
use uthread.Machine.{
  Rt, Result, Fault, ok, Call, live, freed, Env, syscall, load, load_live, load_freed, free_live,
  update_self,
}
use uthread.Lifecycle.{uthread_free, uthread_free_main, forget_uthread}
use uthread.Resume.{resume_leave, resume_exited, wake_joiner}

-- scheduler `i` runs nothing
abbrev pub idle_sched : ℕ → GlobalData → GlobalData
idle_sched i g = record g {
  all_sched = update g.all_sched i (record (g.all_sched i) { cur_uthread = none });
}

-- `ut` stands last in the ready queue of p `j`
abbrev pub queued : ℕ → Ptr → GlobalData → GlobalData
queued j ut g = record g {
  all_p = update g.all_p j (record (g.all_p j) { ready = (g.all_p j).ready ++ (ut ∷ []) });
}

module _ ⦃e : Env⦄ where
  -- A uthread that switched back without having ended: if it sleeps it is in no queue, and otherwise
  -- it goes to the end of the ready queue of the p that the scheduler has now; nothing else changes.
  pub resume_leave_going_on :
      (i j : ℕ) (ut : Ptr) (s : Rt) (u : Uthread)
      → s.heap ut ≡ live u
      → has u.status St.exited ≡ false
      → (s.global.all_sched i).p ≡ some j
      → resume_leave i ut s
        ≡ ok tt (record s {
          global =
              if has u.status St.sleeping
              then idle_sched i s.global
              else queued j ut (idle_sched i s.global);
        })
  unfolding resume_leave load
  resume_leave_going_on i j ut s u alive going bound =
      rw (alive, going)
        (elim (Bool-cases (has u.status St.sleeping)) [
          | inl asleep ↦ rw asleep
          | inr awake ↦ rw awake (ground arith)
        ])

  -- A uthread that goes on, does not sleep, and comes back to a scheduler whose p has gone to another
  -- one makes the scheduler read through a NULL pointer.
  resume_leave_no_p :
      (i : ℕ) (ut : Ptr) (s : Rt) (u : Uthread)
      → s.heap ut ≡ live u
      → has u.status St.exited ≡ false
      → has u.status St.sleeping ≡ false
      → (s.global.all_sched i).p ≡ none
      → resume_leave i ut s ≡ Result.fault Fault.null_deref
  unfolding resume_leave load
  resume_leave_no_p i ut s u alive going awake loose = rw (alive, going, awake) (ground arith)

-- Locking and unlocking the mutex succeed, as they do on a valid mutex that its owner unlocks.
abbrev pub Mutex : Env → Type 0
Mutex e =
    (tr : List Call) → (e.reply tr Call.mutex_lock ≡ pos 0) × (e.reply tr Call.mutex_unlock ≡ pos 0)

-- one uthread fewer
abbrev pub forgotten : GlobalData → GlobalData
forgotten g = record g { n_uthread = (g.n_uthread + 2 ^ 32 - 1) % 2 ^ 32 }

-- the id of a detached uthread may be used again
abbrev pub released : Uthread → GlobalData → GlobalData
released u g =
    if has u.status St.detached then record g { bitmap_ut = update g.bitmap_ut u.id 0 } else g

-- the calls that free a uthread
abbrev pub freeing : Uthread → List Call → List Call
freeing u tr =
    if u.is_main == 0
    then Call.mutex_unlock ∷ Call.mutex_lock ∷ Call.free_stack u.stack ∷ tr
    else Call.mutex_unlock ∷ Call.mutex_lock ∷ tr

module _ ⦃e : Env⦄ (mutex : Mutex e) where
  forget_uthread_lem :
      (s : Rt)
      → forget_uthread s
        ≡ ok tt (record s {
          global = forgotten s.global;
          trace = Call.mutex_unlock ∷ Call.mutex_lock ∷ s.trace;
        })
  unfolding forget_uthread syscall
  forget_uthread_lem s = ground (arith, (mutex s.trace).0, (mutex (Call.mutex_lock ∷ s.trace)).1)

  pub uthread_free_lem :
      (ut : Ptr) (s : Rt) (u : Uthread)
      → s.heap ut ≡ live u
      → (if u.is_main == 0 then uthread_free ut else uthread_free_main ut) s
        ≡ ok tt (record s {
          heap = update s.heap ut (freed u);
          global = forgotten s.global;
          trace = freeing u s.trace;
        })
  unfolding uthread_free uthread_free_main
  uthread_free_lem ut s u alive = elim (Bool-cases (u.is_main == 0)) [
    | inl plain ↦
        let noted : Rt = record s { trace = Call.free_stack u.stack ∷ s.trace } in
        rw (plain, load_live ut s alive, free_live ut noted alive)
          (forget_uthread_lem (record noted { heap = update s.heap ut (freed u) }))
    | inr main ↦
        rw (main, free_live ut s alive)
          (forget_uthread_lem (record s { heap = update s.heap ut (freed u) }))
  ]

  pub wake_no_joiner : (o : Option Ptr) (s : Rt) → o ≡ none → wake_joiner o s ≡ ok tt s
  unfolding wake_joiner
  wake_no_joiner none s h = refl
  wake_no_joiner (some j) s h = cc

  -- A uthread that has ended and that no other uthread joined: its control block is freed, one
  -- uthread fewer is counted, and its id is released if it was detached. The status that decides the
  -- last point, and the id, are read from the block after it was freed.
  pub resume_leave-exited :
      (i : ℕ) (ut : Ptr) (s : Rt) (u : Uthread)
      → s.heap ut ≡ live u
      → has u.status St.exited ≡ true
      → u.ut_joined ≡ none
      → resume_leave i ut s
        ≡ ok tt (record s {
          heap = update s.heap ut (freed u);
          global = released u (forgotten (idle_sched i s.global));
          trace = freeing u s.trace;
          freed_uses = ut ∷ s.freed_uses;
        })
  unfolding resume_leave resume_exited
  resume_leave-exited i ut s u alive ended alone =
      let idle : Rt = record s { global = idle_sched i s.global } in
      let gone : Rt = record s {
        heap = update s.heap ut (freed u);
        global = forgotten (idle_sched i s.global);
        trace = freeing u s.trace;
      } in
      rw
        (
          load_live ut idle alive,
          ended,
          load_live ut idle alive,
          wake_no_joiner u.ut_joined idle alone,
          uthread_free_lem ut idle u alive,
          load_freed ut gone (update_self s.heap ut (freed u)),
        )
        (elim (Bool-cases (has u.status St.detached)) [
          | inl detached ↦ rw detached
          | inr joinable ↦ rw joinable
        ])
