-- ===== src/Turns/Sleep.antt =====
-- The running uthread goes to sleep.
use mathlib.Core.Path.{subst}
use uthread.Base.{
  ℕ, ◌+◌, ◌*◌, ◌%◌, ◌^◌, ◌≡◌, refl, ap, ◌∙◌, none, some, true, false, List, ◌∷◌, ◌==◌, ==_refl,
  if◌then◌else◌, update, Bool-cases, Option-cases, inl, inr, ℤ,
}
use uthread.Status.{has, set_bit}
use uthread.Status.St
use uthread.Status.Laws.{has-set_bit}
use uthread.Types.{Ptr, Uthread, GlobalData}
use uthread.Machine.{
  M, Rt, ok, Cell, live, Env, Call, get_usec_now, store_live, load_live, update_self, deref-some,
  bind-eq-ok, ◌>>◌,
}
use uthread.Sleep.{sleep_enter, sleep_order, forever_msec}
use uthread.Resume.Leave.{idle_sched, resume_leave_going_on}
use uthread.Turns.Yield.{turn_yield, yield_enter_lem}

-- p `j` with another sleeping tree
abbrev pub with_sleeping : ℕ → List Ptr → GlobalData → GlobalData
with_sleeping j l g = record g { all_p = update g.all_p j (record (g.all_p j) { sleeping = l }) }

-- What `sleep_enter` makes of the uthread `a`, whose block holds `u`, of p `j`.
pub record Slept (e : Env) (j : ℕ) (a : Ptr) (u : Uthread) (s t : Rt) : Type 0 where
  pub order : Ptr → Ptr → ℤ
  pub block : Uthread
  pub new : (e.rb_insert order a (s.global.all_p j).sleeping).1 ≡ none
  pub own : t.tls ≡ s.tls
  pub heap : (b : Ptr) → t.heap b ≡ (if b == a then live block else s.heap b)
  pub global :
      t.global ≡ with_sleeping j (e.rb_insert order a (s.global.all_p j).sleeping).0 s.global
  pub home : block.p ≡ u.p
  pub joined : block.ut_joined ≡ u.ut_joined
  pub key : block.fd_wait ≡ u.fd_wait
  pub status : block.status ≡ set_bit u.status St.sleeping

module _ ⦃e : Env⦄ where
  pub sleep_enter_lem :
      (j : ℕ) (a : Ptr) (ms : ℕ) (s t : Rt) (u : Uthread)
      → s.heap a ≡ live u
      → u.p ≡ some j
      → sleep_enter a ms s ≡ ok tt t
      → Slept e j a u s t
  unfolding sleep_enter get_usec_now
  sleep_enter_lem j a ms s t u alive home run =
      let (sec, usec) = e.clock s.trace in
      let msec = if ms == 0 then forever_msec else ms in
      let wake : ℕ = ((sec * 1000000 + usec) % 2 ^ 64 + msec * 1000) % 2 ^ 64 in
      let s0 : Rt = record s { trace = Call.gettimeofday ∷ s.trace } in
      let timed = λ (v : Uthread). record v { wakeup_time_usec = wake } in
      let u1 : Uthread = timed u in
      let h1 : Ptr → Cell = update s.heap a (live u1) in
      let s1 : Rt = record s0 { heap = h1 } in
      let ins = e.rb_insert (sleep_order h1) a (s.global.all_p j).sleeping in
      let s2 : Rt = record s1 { global = with_sleeping j ins.0 s.global } in
      elim (Option-cases ins.1) [
        | inr (x, there) ↦
            let stuck =
              rw
                (
                  store_live a s0 timed alive,
                  load_live a s1 (update_self s.heap a (live u1)),
                  deref-some u.p s1 home,
                  there,
                )
                at run in
            cc
        | inl new ↦
            let sleeping = λ (v : Uthread). record v { status = set_bit v.status St.sleeping } in
            let still = λ (v : Uthread). record v { is_wating_yield_signal = 0 } in
            let u2 : Uthread = sleeping u1 in
            let h2 : Ptr → Cell = update h1 a (live u2) in
            let s3 : Rt = record s2 { heap = h2 } in
            let s4 : Rt = record s2 { heap = update h2 a (live (still u2)) } in
            let done : ok tt s4 ≡ ok tt t =
              rw
                (
                  store_live a s0 timed alive,
                  load_live a s1 (update_self s.heap a (live u1)),
                  deref-some u.p s1 home,
                  new,
                  store_live a s2 sleeping (update_self s.heap a (live u1)),
                  store_live a s3 still (update_self h1 a (live u2)),
                )
                at run in
            let end : s4 ≡ t = cc in
            subst (Slept e j a u s) end (record {
              order = sleep_order h1;
              block = still u2;
              new = new;
              own = refl;
              heap = λ b. elim (Bool-cases (b == a)) [ inl hit ↦ rw hit | inr miss ↦ rw miss ];
              global = refl;
              home = refl;
              joined = refl;
              key = refl;
              status = refl;
            })
      ]

  -- a uthread goes to sleep, and its scheduler goes on
  unfoldable pub turn_sleep : ℕ → Ptr → ℕ → M (Unit {0})
  turn_sleep i a ms = do sleep_enter a ms; turn_yield i

  -- the block of a uthread that has gone to sleep
  abbrev pub lying : Uthread → Uthread
  lying u = record u { is_wating_yield_signal = 0 }

  -- what the turn does to the state
  pub turn_sleep_lem :
      (i j : ℕ) (a : Ptr) (ms : ℕ) (s t : Rt) (u : Uthread)
      → s.tls ≡ some i
      → (s.global.all_sched i).p ≡ some j
      → (s.global.all_sched i).cur_uthread ≡ some a
      → s.heap a ≡ live u
      → u.p ≡ some j
      → has u.status St.exited ≡ false
      → turn_sleep i a ms s ≡ ok tt t
      → (m : Rt) × (k : Slept e j a u s m) × (t ≡ record m {
        heap = update m.heap a (live (lying k.block));
        global = idle_sched i m.global;
      })
  unfolding turn_sleep turn_yield
  turn_sleep_lem i j a ms s t u own bound cur alive home going run =
      let (_, m, slept, left) = bind-eq-ok (sleep_enter a ms s) (λ _. turn_yield i) run in
      let k = sleep_enter_lem j a ms s m u alive home slept in
      let block : m.heap a ≡ live k.block = k.heap a ∙ rw (==_refl a) in
      let scheds : m.global.all_sched ≡ s.global.all_sched =
        ap (λ (g : GlobalData). g.all_sched) k.global in
      let bound' : (m.global.all_sched i).p ≡ some j = rw scheds bound in
      let cur' : (m.global.all_sched i).cur_uthread ≡ some a = rw scheds cur in
      let ended : has k.block.status St.exited ≡ false =
        ap (λ n. has n St.exited) k.status ∙ has-set_bit u.status 3 2 ∙ going in
      let asleep : has k.block.status St.sleeping ≡ true =
        ap (λ n. has n St.sleeping) k.status ∙ has-set_bit u.status 3 3 in
      let m1 : Rt = record m { heap = update m.heap a (live (lying k.block)) } in
      let done =
        rw
          (
            yield_enter_lem i a m k.block (k.own ∙ own) cur' block,
            resume_leave_going_on i j a m1 (lying k.block)
                (update_self m.heap a (live (lying k.block))) ended bound',
            asleep,
          )
          at left in
      (m, k, cc)
