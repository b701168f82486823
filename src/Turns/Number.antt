-- ===== src/Turns/Number.antt =====
-- Code that leaves the number of the uthreads as it is.
use uthread.Base.{
  ℕ, ◌+◌, ◌-◌, List, update, minus_one, eqb_ℤ, ltb_ℤ, ◌≡◌, refl, ap, ◌∙◌, sym, Option, none, some,
  Bool, true, false, not, arith, Bool-cases, inl, inr, ℤ, pos,
}
use uthread.Status.{Event, has, bit, set_bit, clear_bit, event_code, wr}
use uthread.Status.St
use uthread.Types.{P, zero_uthread, Ptr, Uthread, GlobalData}
use uthread.Machine.{
  peek, set_p, get_p, p_of, status_set, M, Rt, ok, Env, Call, bind-eq-ok, load, store, syscall,
  when, deref, assert_that, get, pure, ◌>>=◌, ◌>>◌,
}
use uthread.Lifecycle.{wait_cmp, uthread_init}
use uthread.Sleep.{fd_key, fd_only, fd_event, desched_sleep}
use uthread.Event.{
  drop_waiting, desched_event, clear_waiting, cancel_event, expire_enter, event_found,
}
use uthread.Resume.{resume_enter}
use uthread.Turns.Enter.{add_timer_keeps}
use uthread.Turns.Runs.{turn_resume}
use uthread.Turns.Events.{turn_event}
use uthread.Turns.Expires.{turn_expired}

pub store-global :
    (a : Ptr) (f : Uthread → Uthread) (s t : Rt) → store a f s ≡ ok tt t → t.global ≡ s.global
unfolding store
store-global a f s t run = ground arith

abbrev pub Keeps : {A : Type 0} → M A → Type 0
Keeps {A} m = (s t : Rt) (x : A) → m s ≡ ok x t → t.global.n_uthread ≡ s.global.n_uthread

bind-Keeps :
    {A B : Type 0} {m : M A} {k : A → M B} → Keeps m → ((x : A) → Keeps (k x)) → Keeps (m >>= k)
bind-Keeps {m = m} {k = k} first second s t y run =
    let (x, r, ran, more) = bind-eq-ok (m s) k run in second x r t y more ∙ first s r x ran

pure-Keeps : {A : Type 0} (x : A) → Keeps (pure x)
pure-Keeps x s t y run = let is : s ≡ t = cc in ap (λ (q : Rt). q.global.n_uthread) (sym is)

get-Keeps : Keeps get
get-Keeps s t y run = let is : s ≡ t = cc in ap (λ (q : Rt). q.global.n_uthread) (sym is)

fixed : {m : M (Unit {0})} → Keeps m → (b : Bool) → Keeps (when b m)
fixed keeps true = keeps
fixed keeps false = pure-Keeps tt

assert_Keeps : (b : Bool) → Keeps (assert_that b)
assert_Keeps true s t x run = pure-Keeps tt s t x run
assert_Keeps false s t x run = cc

deref-Keeps : {A : Type 0} (o : Option A) → Keeps (deref o)
deref-Keeps (some x) s t y run = pure-Keeps x s t y run
deref-Keeps none s t x run = cc

read-Keeps : {A : Type 0} (f : Rt → Option A) → Keeps (λ s. deref (f s) s)
read-Keeps f s t x run = deref-Keeps (f s) s t x run

view-Keeps : {A : Type 0} (f : Rt → A) → Keeps (λ s. ok (f s) s)
view-Keeps f s t x run = let is : s ≡ t = cc in ap (λ (q : Rt). q.global.n_uthread) (sym is)

change-Keeps :
    (f : Rt → Rt)
    → ((s : Rt) → (f s).global.n_uthread ≡ s.global.n_uthread)
    → Keeps (λ s. ok tt (f s))
change-Keeps f same s t x run =
    let is : f s ≡ t = cc in ap (λ (q : Rt). q.global.n_uthread) (sym is) ∙ same s

load-Keeps : (a : Ptr) → Keeps (load a)
unfolding load
load-Keeps a s t x run = ground arith

store-Keeps : (a : Ptr) (f : Uthread → Uthread) → Keeps (store a f)
store-Keeps a f s t x run = ap (λ (g : GlobalData). g.n_uthread) (store-global a f s t run)

set_p-Keeps : (j : ℕ) (f : P → P) → Keeps (set_p j f)
set_p-Keeps j f =
    change-Keeps
      (λ s. record s {
        global = record (s.global) { all_p = update s.global.all_p j (f (s.global.all_p j)) };
      })
      (λ s. refl)

module _ ⦃e : Env⦄ where
  syscall-Keeps : (c : Call) → Keeps (syscall c)
  unfolding syscall
  syscall-Keeps c s t x run = cc

  desched_sleep-Keeps : (a : Ptr) → Keeps (desched_sleep a)
  unfolding desched_sleep
  desched_sleep-Keeps a = bind-Keeps (load-Keeps a) (λ u.
      fixed
        (bind-Keeps (deref-Keeps u.p) (λ i.
          bind-Keeps (set_p-Keeps i (λ q. record q { sleeping = e.rb_remove a q.sleeping })) (λ _.
            bind-Keeps (store-Keeps a (λ v. record v { status = clear_bit v.status St.sleeping }))
              (λ _. store-Keeps a (λ v. record v { status = set_bit v.status St.ready })))))
        (has u.status St.sleeping))

  drop_waiting-Keeps : (j : ℕ) (o : Option Ptr) → Keeps (drop_waiting j o)
  unfolding drop_waiting
  drop_waiting-Keeps j none = pure-Keeps tt
  drop_waiting-Keeps j (some a) =
      bind-Keeps (set_p-Keeps j (λ q. record q { waiting = e.rb_remove a q.waiting }))
        (λ _. desched_sleep-Keeps a)

  desched_event-Keeps : (fd : ℤ) (ev : ℕ) → Keeps (desched_event fd ev)
  unfolding desched_event
  desched_event-Keeps fd ev = bind-Keeps (read-Keeps (λ s. s.tls)) (λ i.
      bind-Keeps (bind-Keeps (view-Keeps (λ s. s.global.all_sched i)) (λ sc. deref-Keeps sc.p))
        (λ j. bind-Keeps (view-Keeps (λ s. s.global.all_p j)) (λ p. bind-Keeps get-Keeps (λ s.
          let found =
            e.rb_find
              (λ a. wait_cmp (record zero_uthread { fd_wait = fd_key fd ev }) (peek s.heap a))
              p.waiting in
          bind-Keeps (drop_waiting-Keeps j found) (λ _. pure-Keeps found)))))

  clear_waiting-Keeps : (a : Ptr) → Keeps (clear_waiting a)
  unfolding clear_waiting
  clear_waiting-Keeps a = bind-Keeps (load-Keeps a) (λ u.
      elim (Bool-cases (has u.status St.wait_rd)) [
        | inl reading ↦
            rw reading (store-Keeps a (λ v. record v { status = clear_bit v.status St.wait_rd }))
        | inr other ↦ rw other (
            fixed (store-Keeps a (λ v. record v { status = clear_bit v.status (event_code wr) }))
              (has u.status (event_code wr)))
      ])

  -- the end of a registration with the kernel
  removed-Keeps :
      (u : Uthread) (fd : ℤ) (rest : M (Unit {0}))
      → Keeps rest
      → Keeps (do
        i ← p_of u
        p ← get_p i
        r ← syscall (Call.epoll_del p.poller_fd fd)
        assert_that (eqb_ℤ r (pos 0))
        rest)
  removed-Keeps u fd rest keeps = bind-Keeps (deref-Keeps u.p) (λ i.
      bind-Keeps (view-Keeps (λ s. s.global.all_p i)) (λ p.
        bind-Keeps (syscall-Keeps (Call.epoll_del p.poller_fd fd))
          (λ r. bind-Keeps (assert_Keeps (eqb_ℤ r (pos 0))) (λ _. keeps))))

  event_found-Keeps : (fd : ℤ) (eof : Bool) (a : Ptr) → Keeps (event_found fd eof a)
  unfolding event_found
  event_found-Keeps fd eof a = bind-Keeps (load-Keeps a) (λ u.
      bind-Keeps (assert_Keeps (eqb_ℤ fd (fd_only u.fd_wait))) (λ _.
        bind-Keeps (clear_waiting-Keeps a) (λ _.
          removed-Keeps u fd (when eof (status_set a St.fdeof))
            (fixed (store-Keeps a (λ v. record v { status = set_bit v.status St.fdeof })) eof))))

  cancel_event-Keeps : (a : Ptr) → Keeps (cancel_event a)
  unfolding cancel_event
  cancel_event-Keeps a = bind-Keeps (load-Keeps a) (λ u.
      let search : M (Unit {0}) = (do
        found ← desched_event (fd_only u.fd_wait) (fd_event u.fd_wait)
        pure tt) in
      let waits = not (ltb_ℤ u.fd_wait (pos 0)) in
      bind-Keeps (clear_waiting-Keeps a) (λ _.
        removed-Keeps u (fd_only u.fd_wait)
          (do when waits search; store a (λ v. record v { fd_wait = minus_one }))
          (bind-Keeps
            (fixed
              (bind-Keeps (desched_event-Keeps (fd_only u.fd_wait) (fd_event u.fd_wait))
                (λ _. pure-Keeps tt))
              waits)
            (λ _. store-Keeps a (λ v. record v { fd_wait = minus_one })))))

  expire_enter-Keeps : (a : Ptr) → Keeps (expire_enter a)
  unfolding expire_enter
  expire_enter-Keeps a = bind-Keeps (cancel_event-Keeps a) (λ _.
      bind-Keeps (desched_sleep-Keeps a)
        (λ _. store-Keeps a (λ v. record v { status = set_bit v.status St.expired })))

  uthread_init-Keeps : (a : Ptr) → Keeps (uthread_init a)
  unfolding uthread_init
  uthread_init-Keeps a = bind-Keeps (load-Keeps a) (λ u.
      let stack = u.stack + u.stack_size in
      bind-Keeps
        (change-Keeps (λ s. record s { memory = update s.memory (stack - 16) a }) (λ s. refl))
        (λ _.
          bind-Keeps
            (change-Keeps (λ s. record s { memory = update s.memory (stack - 24) 0 }) (λ s. refl))
            (λ _. store-Keeps a (λ v. record v {
              ctx = record (v.ctx) { esp = stack - 32; ebp = stack - 24; eip = e.exec_address };
              status = bit St.ready;
            }))))

  resume_enter-Keeps : (i : ℕ) (a : Ptr) → Keeps (resume_enter i a)
  unfolding resume_enter
  resume_enter-Keeps i a = bind-Keeps (load-Keeps a) (λ u.
      bind-Keeps (fixed (uthread_init-Keeps a) (has u.status St.new)) (λ _.
        bind-Keeps
          (change-Keeps
            (λ s. record s {
              global = record (s.global) {
                all_sched =
                    update s.global.all_sched i
                      (record (s.global.all_sched i) { cur_uthread = some a });
              };
            })
            (λ s. refl))
          (λ _.
            bind-Keeps (store-Keeps a (λ v. record v { is_wating_yield_signal = 1 }))
              (λ _ s t x run.
                let (_, global, _) = add_timer_keeps 1 a s t run in
                ap (λ (g : GlobalData). g.n_uthread) global))))

  pub turn_resume-Keeps : (i j : ℕ) (a : Ptr) (rest : List Ptr) → Keeps (turn_resume i j a rest)
  unfolding turn_resume
  turn_resume-Keeps i j a rest =
      bind-Keeps (set_p-Keeps j (λ q. record q { ready = rest })) (λ _. resume_enter-Keeps i a)

  handled-Keeps :
      (i : ℕ) (fd : ℤ) (eof : Bool) (o : Option Ptr)
      → Keeps (elim o [ none ↦ pure tt | some a ↦ do event_found fd eof a; resume_enter i a ])
  handled-Keeps i fd eof none s t x run = pure-Keeps tt s t x run
  handled-Keeps i fd eof (some a) s t x run =
      bind-Keeps (event_found-Keeps fd eof a) (λ _. resume_enter-Keeps i a) s t x run

  pub turn_event-Keeps : (i : ℕ) (fd : ℤ) (ev : Event) (eof : Bool) → Keeps (turn_event i fd ev eof)
  unfolding turn_event
  turn_event-Keeps i fd ev eof =
      bind-Keeps (desched_event-Keeps fd (event_code ev)) (handled-Keeps i fd eof)

  pub turn_expired-Keeps : (i : ℕ) (a : Ptr) → Keeps (turn_expired i a)
  unfolding turn_expired
  turn_expired-Keeps i a = bind-Keeps (expire_enter-Keeps a) (λ _. resume_enter-Keeps i a)
