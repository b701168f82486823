-- ===== src/Turns/Enter.antt =====
-- The scheduler resumes a uthread.
use uthread.Base.{
  ℕ, ◌+◌, ◌-◌, ◌≡◌, refl, ap, ◌∙◌, some, false, ◌==◌, ==_refl, if◌then◌else◌, update, arith,
  Bool-cases, inl, inr,
}
use uthread.Status.{has, bit}
use uthread.Status.St
use uthread.Types.{Ptr, Uthread, GlobalData}
use uthread.Machine.{Rt, ok, Cell, live, Env, syscall, when, store_live, load_live}
use uthread.Timer.{add_timer}
use uthread.Lifecycle.{uthread_init}
use uthread.Resume.{resume_enter}
use uthread.Turns.Waits.{heap_case}

-- scheduler `i` runs `a`
abbrev pub chosen : ℕ → Ptr → GlobalData → GlobalData
chosen i a g = record g {
  all_sched = update g.all_sched i (record (g.all_sched i) { cur_uthread = some a });
}

-- What the runtime does, before its switch, to a uthread whose block holds `u`.
pub record Entered (i : ℕ) (a : Ptr) (u : Uthread) (s t : Rt) : Type 0 where
  pub block : Uthread
  pub own : t.tls ≡ s.tls
  pub heap : (b : Ptr) → t.heap b ≡ (if b == a then live block else s.heap b)
  pub global : t.global ≡ chosen i a s.global
  pub home : block.p ≡ u.p
  pub joined : block.ut_joined ≡ u.ut_joined
  pub going : has u.status St.exited ≡ false → has block.status St.exited ≡ false
  pub awake : has u.status St.sleeping ≡ false → has block.status St.sleeping ≡ false

module _ ⦃e : Env⦄ where
  pub add_timer_keeps :
      (len : ℕ) (a : Ptr) (s t : Rt)
      → add_timer len a s ≡ ok tt t
      → (t.heap ≡ s.heap) × (t.global ≡ s.global) × (t.tls ≡ s.tls)
  unfolding add_timer syscall
  add_timer_keeps len a s t done = ground arith

  -- the block after the first resumption, if it is the first
  started : Uthread → Uthread
  started u =
      let stack = u.stack + u.stack_size in
      if has u.status St.new
      then record u {
        ctx = record (u.ctx) { esp = stack - 32; ebp = stack - 24; eip = e.exec_address };
        status = bit St.ready;
      }
      else u

  init_lem :
      (a : Ptr) (s : Rt) (u : Uthread)
      → s.heap a ≡ live u
      → (r : Rt) × (when (has u.status St.new) (uthread_init a) s ≡ ok tt r)
        × ((b : Ptr) → r.heap b ≡ (if b == a then live (started u) else s.heap b))
        × (r.global ≡ s.global)
        × (r.tls ≡ s.tls)
  unfolding uthread_init started
  init_lem a s u alive = elim (Bool-cases (has u.status St.new)) [
    | inl new ↦
        let stack = u.stack + u.stack_size in
        let poked : Rt = record s {
          memory = update (update s.memory (stack - 16) a) (stack - 24) 0;
        } in
        let start = λ (v : Uthread). record v {
          ctx = record (v.ctx) { esp = stack - 32; ebp = stack - 24; eip = e.exec_address };
          status = bit St.ready;
        } in
        (
          record poked { heap = update s.heap a (live (start u)) },
          rw (new, load_live a s alive) (store_live a poked start alive),
          λ b. rw new,
          refl,
          refl,
        )
    | inr old ↦ (s, rw old, λ b. rw old (heap_case a b s.heap u alive), refl, refl)
  ]

  pub resume_enter_lem :
      (i : ℕ) (a : Ptr) (s t : Rt) (u : Uthread)
      → s.heap a ≡ live u
      → resume_enter i a s ≡ ok tt t
      → Entered i a u s t
  unfolding resume_enter
  resume_enter_lem i a s t u alive run =
      let (r, first, heap, global, tls) = init_lem a s u alive in
      let flag = λ (w : Uthread). record w { is_wating_yield_signal = 1 } in
      let set : Rt = record r { global = chosen i a r.global } in
      let there : r.heap a ≡ live (started u) = heap a ∙ rw (==_refl a) in
      let flagged : Rt = record set { heap = update r.heap a (live (flag (started u))) } in
      let last : add_timer 1 a flagged ≡ ok tt t =
        rw (load_live a s alive, first, store_live a set flag there) at run in
      let (heap', global', tls') = add_timer_keeps 1 a flagged t last in
      record {
        block = flag (started u);
        own = tls' ∙ tls;
        heap = λ b. ap (λ (h : Ptr → Cell). h b) heap' ∙ elim (Bool-cases (b == a)) [
          | inl hit ↦ rw hit
          | inr miss ↦ rw miss (heap b ∙ rw miss)
        ];
        global = global' ∙ ap (chosen i a) global;
        home = unfold started in ground arith;
        joined = unfold started in ground arith;
        going = λ h. unfold started has in ground arith;
        awake = λ h. unfold started has in ground arith;
      }
