-- ===== src/Turns/Expiring.antt =====
-- uthread_sched.c: _uthread_resume_expired, as a sequence of turns.
use uthread.Base.{
  ℕ, zero, suc, ◌<◌, ◌≡◌, refl, some, List, ◌∷◌, ◌/◌, ◌^◌, leb, count, arith, Bool-cases,
  Option-cases, inl, inr, ℤ, pos, negsuc, minus_one,
}
use mathlib.Core.Path.{subst}
use uthread.Types.{Ptr, Uthread}
use uthread.Machine.{
  Rt, ok, Call, live, Env, of_ut, of_sched, syscall_fails, get_usec_now, load_live, deref-some,
  bind-eq-ok, ◌>>◌,
}
use uthread.Sleep.{fd_only}
use uthread.Event.{cancel_event, expire_enter, resume_expired_one, next_sleeper, resume_expired}
use uthread.Event.Expired.{clear_waiting_lem}
use uthread.Resume.{resume_enter, resume_leave, uthread_resume}
use uthread.Resume.Leave.{Mutex}
use uthread.Turns.{Place, asleep, Fits}
use uthread.Turns.Facts.{in_sleep-inv}
use uthread.Turns.Trees.{RbLaws}
use uthread.Turns.Expires.{turn_expired, expire_enter-own}
use uthread.Turns.Step.{Passed, Step, expires}
use uthread.Turns.Refines.{Step-refines}
use uthread.Turns.Reaches.{goes_on}
use uthread.Turns.Guest.{Rested}
use uthread.Turns.Loops.{Guests, pass_Rested, resume_enter-cur, switched}

-- The kernel refuses to remove a negative descriptor from an epoll instance.
abbrev pub RefusesNegative : Env → Type 0
RefusesNegative e =
    (tr : List Call) (poller : ℤ) (n : ℕ)
    → e.reply tr (Call.epoll_del poller (negsuc n)) ≡ minus_one

fd_only_negative : (f : ℤ) (n : ℕ) → f ≡ negsuc n → fd_only f ≡ negsuc (n / 2 ^ 32)
unfolding fd_only
fd_only_negative f n h = rw h

module _ ⦃e : Env⦄ (refuses : RefusesNegative e) where
  -- The scheduler takes the time of a sleeper as up only if the sleeper waits for a descriptor.
  expired_key :
      (j : ℕ) (a : Ptr) (s f : Rt) (u : Uthread) (key : ℤ)
      → u.fd_wait ≡ key
      → s.heap a ≡ live u
      → u.p ≡ some j
      → expire_enter a s ≡ ok tt f
      → (k : ℕ) × (u.fd_wait ≡ pos k)
  unfolding expire_enter cancel_event
  expired_key j a s f u (pos k) is alive home run = (k, is)
  expired_key j a s f u (negsuc n) is alive home run =
      let (t, cleared) = clear_waiting_lem a s u alive in
      let fd = negsuc (n / 2 ^ 32) in
      let started = rw (load_live a s alive, cleared) at run in
      let stuck =
        rw
          (
            deref-some u.p t home,
            fd_only_negative u.fd_wait n is,
            syscall_fails (Call.epoll_del (t.global.all_p j).poller_fd fd) t
                (refuses t.trace (t.global.all_p j).poller_fd (n / 2 ^ 32)),
          )
          at started in
      cc

  get_usec_now-Passed : (j n : ℕ) (s t : Rt) → get_usec_now s ≡ ok n t → Passed j s t
  unfolding get_usec_now
  get_usec_now-Passed j n s t run =
      let is : record s { trace = Call.gettimeofday ∷ s.trace } ≡ t = cc in
      subst (Passed j s) is (record {
        own = refl;
        heap = refl;
        scheds = refl;
        ready = refl;
        sleeping = refl;
        waiting = refl;
        number = refl;
      })

module _ ⦃e : Env⦄ (laws : RbLaws e) (mutex : Mutex e) (refuses : RefusesNegative e) (i j : ℕ)
    (guests : Guests e i j) where
  -- one uthread whose time is up
  expired_one_Rested :
      (s0 s t : Rt) (a : Ptr)
      → Rested i j s0 s
      → 0 < count a (s.global.all_p j).sleeping
      → resume_expired_one a s ≡ ok tt t
      → Rested i j s0 t
  unfolding resume_expired_one uthread_resume turn_expired
  expired_one_Rested s0 s t a (place, before, idle, reached) sleeps run =
      let lies : place a ≡ asleep =
        in_sleep-inv (place a) (omega (arith, before.sleepers a, sleeps)) in
      let (u, alive, home, _, _) =
        subst (λ (p : Place). Fits j p (s.heap a)) lies (before.cells a) in
      let (_, f, entered, resumed) = bind-eq-ok (expire_enter a s) (λ _. uthread_resume a) run in
      let (k, key) = expired_key refuses j a s f u u.fd_wait refl alive home entered in
      let own = expire_enter-own laws i j place s f a u k before alive key sleeps entered in
      let inner = rw (deref-some f.tls f own) at resumed in
      let (_, q, chosen, rest) =
        bind-eq-ok (resume_enter i a f)
          (λ _. (do e.switch (of_ut a) (of_sched i); resume_leave i a)) inner in
      let step : Step i j s q = expires a u k idle alive key sleeps (rw entered chosen) in
      let (p, _, there, _, _) = Step-refines laws mutex i j place s q before step in
      switched laws mutex i j guests s0 q t a p there (goes_on reached step)
        (resume_enter-cur i a f q chosen) rest

  pub resume_expired-Rested :
      (fuel : ℕ) (s0 s t : Rt)
      → Rested i j s0 s
      → resume_expired fuel i s ≡ ok tt t
      → Rested i j s0 t
  unfolding resume_expired next_sleeper
  resume_expired-Rested zero s0 s t now run = cc
  resume_expired-Rested (suc fuel) s0 s t now run =
      let (place, before, idle, reached) = now in
      let l = (s.global.all_p j).sleeping in
      let opened = rw before.bound at run in
      elim (Option-cases (e.rb_min l)) [
        | inl nobody ↦
            let done = rw nobody at opened in let is : s ≡ t = cc in subst (Rested i j s0) is now
        | inr (a, first) ↦
            let sleeps = laws.least a l first in
            let lies : place a ≡ asleep =
              in_sleep-inv (place a) (omega (arith, before.sleepers a, sleeps)) in
            let (u, alive, _, _, _) =
              subst (λ (p : Place). Fits j p (s.heap a)) lies (before.cells a) in
            let loaded = rw (first, load_live a s alive) at opened in
            let (n, m, timed, more) = bind-eq-ok (get_usec_now s) _ loaded in
            let passed = get_usec_now-Passed refuses j n s m timed in
            let there = pass_Rested i j s0 s m now passed in
            let sleeps' : 0 < count a (m.global.all_p j).sleeping = rw passed.sleeping sleeps in
            elim (Bool-cases (leb u.wakeup_time_usec n)) [
              | inl due ↦
                  let going = rw due at more in
                  let (_, r, resumed, again) =
                    bind-eq-ok (resume_expired_one a m) (λ _. resume_expired fuel i) going in
                  resume_expired-Rested fuel s0 r t
                    (expired_one_Rested s0 m r a there sleeps' resumed) again
              | inr early ↦
                  let done = rw early at more in
                  let is : m ≡ t = cc in subst (Rested i j s0) is there
            ]
      ]
