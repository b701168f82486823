-- ===== src/Resume/Enter.antt =====
-- Resuming a uthread that, when it runs, comes back by a yield.
use uthread.Base.{
  ℕ, ◌+◌, ◌-◌, ◌≡◌, refl, sym, ap, ◌∙◌, some, false, List, [], ◌∷◌, ◌++◌, ◌==◌, ==_refl,
  if◌then◌else◌, pos, eqb_ℤ, minus_one, Bool-cases, inl, inr, update,
}
use mathlib.Core.Path.{subst}
use uthread.Status.{has, bit}
use uthread.Status.St
use uthread.Types.{Context, Ptr, Uthread, GlobalData, P}
use uthread.Machine.{
  update_self, Rt, ok, Call, Cell, live, Env, Ctx, when, syscall, load_live, store_live, deref-some,
}
use uthread.Timer.{add_timer}
use uthread.Timer.Pending.{armed}
use uthread.Lifecycle.{uthread_init}
use uthread.Resume.{resume_enter, resume_leave, uthread_resume}
use uthread.Resume.Leave.{idle_sched, queued, resume_leave_going_on}

-- A live uthread that has not ended and does not sleep.
abbrev pub IsRunnable : (Ptr → Cell) → Ptr → Type 0
IsRunnable h a =
    (u : Uthread) × (h a ≡ live u)
    × (has u.status St.exited ≡ false)
    × (has u.status St.sleeping ≡ false)

IsRunnable-update :
    (h : Ptr → Cell) (a : Ptr) (v : Uthread)
    → has v.status St.exited ≡ false
    → has v.status St.sleeping ≡ false
    → (b : Ptr) → IsRunnable h b
    → IsRunnable (update h a (live v)) b
IsRunnable-update h a v going awake b (u, alive, going', awake') = elim (Bool-cases (b == a)) [
  | inl hit ↦ (v, rw hit, going, awake)
  | inr miss ↦ (u, rw miss alive, going', awake')
]

-- What stays as it is between `s` and `t` for the scheduler `i`.
pub record Keeps (i : ℕ) (s t : Rt) : Type 0 where
  pub same_tls : t.tls ≡ s.tls
  pub same_bound : (t.global.all_sched i).p ≡ (s.global.all_sched i).p
  pub same_ps : t.global.all_p ≡ s.global.all_p
  pub runnable : (a : Ptr) → IsRunnable s.heap a → IsRunnable t.heap a

Keeps-trans : (i : ℕ) {r s t : Rt} → Keeps i r s → Keeps i s t → Keeps i r t
Keeps-trans i h k = record {
  same_tls = k.same_tls ∙ h.same_tls;
  same_bound = k.same_bound ∙ h.same_bound;
  same_ps = k.same_ps ∙ h.same_ps;
  runnable = λ a r. k.runnable a (h.runnable a r);
}

-- No call of `malloc` returns NULL.
abbrev pub Malloc : Env → Type 0
Malloc e = (tr : List Call) → eqb_ℤ (e.reply tr Call.malloc) (pos 0) ≡ false

-- A uthread that a scheduler switches to comes back as by `_uthread_yield`, which has reset the mark that
-- the scheduler set, with its registers saved; the rest of the runtime's structures is as it was.
abbrev pub YieldsBack : Env → Type 0
YieldsBack e =
    (i : ℕ) (a : Ptr) (u : Uthread) (s : Rt)
    → s.tls ≡ some i
    → (s.global.all_sched i).cur_uthread ≡ some a
    → s.heap a ≡ live u
    → (t : Rt) × (regs : Context) × (e.switch (Ctx.of_ut a) (Ctx.of_sched i) s ≡ ok tt t)
      × (t.heap ≡ update s.heap a (live (record u { is_wating_yield_signal = 0; ctx = regs })))
      × (t.global ≡ s.global)
      × (t.tls ≡ s.tls)
      × (t.timer ≡ s.timer)

module _ ⦃e : Env⦄ where
  -- initialised on its first resumption, a uthread is runnable
  init_if_new :
      (i : ℕ) (ut : Ptr) (s : Rt) (u : Uthread)
      → s.heap ut ≡ live u
      → has u.status St.exited ≡ false
      → has u.status St.sleeping ≡ false
      → (t : Rt) × (when (has u.status St.new) (uthread_init ut) s ≡ ok tt t)
        × Keeps i s t
        × (t.timer ≡ s.timer)
  unfolding uthread_init has
  init_if_new i ut s u alive going awake = elim (Bool-cases (has u.status St.new)) [
    | inl new ↦
        let stack = u.stack + u.stack_size in
        let poked : Rt = record s {
          memory = update (update s.memory (stack - 16) ut) (stack - 24) 0;
        } in
        let start = λ (v : Uthread). record v {
          ctx = record (v.ctx) { esp = stack - 32; ebp = stack - 24; eip = e.exec_address };
          status = bit St.ready;
        } in
        (
          record poked { heap = update s.heap ut (live (start u)) },
          rw (new, load_live ut s alive) (store_live ut poked start alive),
          record {
            same_tls = refl;
            same_bound = refl;
            same_ps = refl;
            runnable = IsRunnable-update s.heap ut (start u) refl refl;
          },
          refl,
        )
    | inr old ↦ (
      s,
      rw old,
      record { same_tls = refl; same_bound = refl; same_ps = refl; runnable = λ a r. r },
      refl,
    )
  ]

-- scheduler `i` runs `ut`
abbrev chosen : ℕ → Ptr → GlobalData → GlobalData
chosen i ut g = record g {
  all_sched = update g.all_sched i (record (g.all_sched i) { cur_uthread = some ut });
}

module _ ⦃e : Env⦄ (malloc : Malloc e) where
  add_timer_lem :
      (i : ℕ) (ut : Ptr) (s : Rt)
      → (t : Rt) × (add_timer 1 ut s ≡ ok tt t)
        × Keeps i s t
        × (t.timer ≡ armed s.timer 1 ut)
        × (t.global ≡ s.global)
  unfolding add_timer syscall
  add_timer_lem i ut s =
      let r = e.reply s.trace Call.malloc in
      (
        record s {
          errno = if eqb_ℤ r minus_one then e.errno_of s.trace Call.malloc else s.errno;
          trace = Call.malloc ∷ s.trace;
          timer = armed s.timer 1 ut;
        },
        rw (malloc s.trace),
        record { same_tls = refl; same_bound = refl; same_ps = refl; runnable = λ a q. q },
        refl,
        refl,
      )

  chosen_lem : (i : ℕ) (ut : Ptr) (s : Rt) → Keeps i s (record s { global = chosen i ut s.global })
  chosen_lem i ut s = record {
    same_tls = refl;
    same_bound = rw (==_refl i);
    same_ps = refl;
    runnable = λ a q. q;
  }

  enter_lem :
      (i : ℕ) (ut : Ptr) (s : Rt)
      → IsRunnable s.heap ut
      → (t : Rt) × (resume_enter i ut s ≡ ok tt t)
        × Keeps i s t
        × (t.timer ≡ armed s.timer 1 ut)
        × ((t.global.all_sched i).cur_uthread ≡ some ut)
  unfolding resume_enter
  enter_lem i ut s (u, alive, going, awake) =
      let (r, first, keep, wheel) = init_if_new i ut s u alive going awake in
      let (v, alive', going', awake') = keep.runnable ut (u, alive, going, awake) in
      let set : Rt = record r { global = chosen i ut r.global } in
      let flag = λ (w : Uthread). record w { is_wating_yield_signal = 1 } in
      let flagged : Rt = record set { heap = update r.heap ut (live (flag v)) } in
      let (t, last, keep', wheel', same) = add_timer_lem i ut flagged in
      (
        t,
        rw (load_live ut s alive, first, store_live ut set flag alive') last,
        Keeps-trans i keep (
            Keeps-trans i (chosen_lem i ut r) (
              Keeps-trans i
                (record {
                  same_tls = refl;
                  same_bound = refl;
                  same_ps = refl;
                  runnable = IsRunnable-update r.heap ut (flag v) going' awake';
                })
                keep')),
        wheel' ∙ ap (λ w. armed w 1 ut) wheel,
        ap (λ (g : GlobalData). (g.all_sched i).cur_uthread) same ∙ rw (==_refl i),
      )

-- `ut` is back in the queue of p `j`, and scheduler `i` runs nothing
abbrev requeued : ℕ → ℕ → Ptr → Rt → Rt
requeued i j ut s = record s { global = queued j ut (idle_sched i s.global) }

module _ ⦃e : Env⦄ (malloc : Malloc e) (yields_back : YieldsBack e) where
  -- Resuming a runnable uthread that yields: it is last in the ready queue of the scheduler's p, a timer
  -- of one tick is armed for it, and every runnable uthread stays so.
  pub resume_yielding :
      (i j : ℕ) (ut : Ptr) (s : Rt)
      → s.tls ≡ some i
      → (s.global.all_sched i).p ≡ some j
      → IsRunnable s.heap ut
      → (t : Rt) × (uthread_resume ut s ≡ ok tt t)
        × (t.tls ≡ some i)
        × ((t.global.all_sched i).p ≡ some j)
        × ((t.global.all_p j).ready ≡ (s.global.all_p j).ready ++ (ut ∷ []))
        × (t.timer ≡ armed s.timer 1 ut)
        × ((a : Ptr) → IsRunnable s.heap a → IsRunnable t.heap a)
  unfolding uthread_resume
  resume_yielding i j ut s own bound run =
      let (r, first, keep, wheel, cur) = enter_lem malloc i ut s run in
      let (v, alive, going, awake) = keep.runnable ut run in
      let (q, regs, there, heap, global, tls, timer) =
        yields_back i ut v r (keep.same_tls ∙ own) cur alive in
      let w : Uthread = record v { is_wating_yield_signal = 0; ctx = regs } in
      let bound' : (q.global.all_sched i).p ≡ some j =
        ap (λ (g : GlobalData). (g.all_sched i).p) global ∙ keep.same_bound ∙ bound in
      let queue : (q.global.all_p j).ready ≡ (s.global.all_p j).ready =
        ap (λ (g : GlobalData). (g.all_p j).ready) global
        ∙ ap (λ (f : ℕ → P). (f j).ready) keep.same_ps in
      let alive' : q.heap ut ≡ live w =
        ap (λ (h : Ptr → Cell). h ut) heap ∙ update_self r.heap ut (live w) in
      let back : resume_leave i ut q ≡ ok tt (requeued i j ut q) =
        rw awake at (resume_leave_going_on i j ut q w alive' going bound') in
      (
        requeued i j ut q,
        rw (deref-some s.tls s own, first, there) back,
        tls ∙ keep.same_tls ∙ own,
        rw (==_refl i) bound',
        rw (==_refl j) (ap (λ (l : List Ptr). l ++ (ut ∷ [])) queue),
        timer ∙ wheel,
        λ a h.
            subst (λ (m : Ptr → Cell). IsRunnable m a) (sym heap)
              (IsRunnable-update r.heap ut w going awake a (keep.runnable a h)),
      )
