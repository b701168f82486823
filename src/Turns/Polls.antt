-- ===== src/Turns/Polls.antt =====
-- A poll leaves every uthread where it is.
use uthread.Base.{
  ℕ, zero, suc, ◌≡◌, refl, ◌∙◌, Option, none, some, Bool, true, false, not, ◌&&◌, ◌==◌, ==_refl,
  update, arith, Bool-cases, inl, inr, ℤ, eqb_ℤ, minus_one, ltb, is_empty,
}
use uthread.Types.{Ptr, Uthread}
use uthread.Machine.{
  Rt, ok, Env, Call, when, syscall, get_usec_now, set_p, load, bind-eq-ok, deref-some, ◌>>=◌,
}
use uthread.Poll.{time_until, min_timeout, epoll_loop, uthread_poll, timespec_of, msec_of, eintr}
use uthread.Turns.Step.{Passed}

pub Passed-refl : (j : ℕ) (s : Rt) → Passed j s s
Passed-refl j s = record {
  own = refl;
  heap = refl;
  scheds = refl;
  ready = refl;
  sleeping = refl;
  waiting = refl;
  number = refl;
}

pub Passed-trans : (j : ℕ) {r s t : Rt} → Passed j r s → Passed j s t → Passed j r t
Passed-trans j h k = record {
  own = k.own ∙ h.own;
  heap = k.heap ∙ h.heap;
  scheds = k.scheds ∙ h.scheds;
  ready = k.ready ∙ h.ready;
  sleeping = k.sleeping ∙ h.sleeping;
  waiting = k.waiting ∙ h.waiting;
  number = k.number ∙ h.number;
}

load-Passed : (j : ℕ) (a : Ptr) (u : Uthread) (s t : Rt) → load a s ≡ ok u t → Passed j s t
unfolding load
load-Passed j a u s t run = record {
  own = ground arith;
  heap = ground arith;
  scheds = ground arith;
  ready = ground arith;
  sleeping = ground arith;
  waiting = ground arith;
  number = ground arith;
}

module _ ⦃e : Env⦄ (j : ℕ) where
  clock-Passed : (n : ℕ) (s t : Rt) → get_usec_now s ≡ ok n t → Passed j s t
  unfolding get_usec_now
  clock-Passed n s t run = record {
    own = cc;
    heap = cc;
    scheds = cc;
    ready = cc;
    sleeping = cc;
    waiting = cc;
    number = cc;
  }

  syscall-Passed : (c : Call) (n : ℤ) (s t : Rt) → syscall c s ≡ ok n t → Passed j s t
  unfolding syscall
  syscall-Passed c n s t run = record {
    own = cc;
    heap = cc;
    scheds = cc;
    ready = cc;
    sleeping = cc;
    waiting = cc;
    number = cc;
  }

  time_until-Passed : (o : Option Ptr) (n : ℕ) (s t : Rt) → time_until o s ≡ ok n t → Passed j s t
  unfolding time_until
  time_until-Passed none n s t run = let is : s ≡ t = cc in rw (← is) (Passed-refl j s)
  time_until-Passed (some a) n s t run =
      let (u, s1, loaded, r1) = bind-eq-ok (load a s) _ run in
      let (now, s2, read, r2) = bind-eq-ok (get_usec_now s1) _ r1 in
      let there : Passed j s s2 =
        Passed-trans j (load-Passed j a u s s1 loaded) (clock-Passed now s1 s2 read) in
      elim (Bool-cases (ltb now u.wakeup_time_usec)) [
        | inl waits ↦
            let r3 = rw waits at r2 in
            let (later, s3, again, r4) = bind-eq-ok (get_usec_now s2) _ r3 in
            let is : s3 ≡ t = cc in Passed-trans j there (rw is at (clock-Passed later s2 s3 again))
        | inr due ↦ let r3 = rw due at r2 in let is : s2 ≡ t = cc in rw is at there
      ]

  -- the loop round epoll_wait
  epoll_loop-Passed :
      (fuel msec n : ℕ) (s t : Rt) → epoll_loop fuel j msec s ≡ ok n t → Passed j s t
  unfolding epoll_loop
  epoll_loop-Passed zero msec n s t run = cc
  epoll_loop-Passed (suc fuel) msec n s t run =
      let (ret, s1, called, r1) =
        bind-eq-ok (syscall (Call.epoll_wait (s.global.all_p j).poller_fd msec) s) _ run in
      let there =
        syscall-Passed (Call.epoll_wait (s.global.all_p j).poller_fd msec) ret s s1 called in
      elim (Bool-cases (eqb_ℤ ret minus_one)) [
        | inl failed ↦
            let r2 = rw failed at r1 in
            elim (Bool-cases (s1.errno == eintr)) [
              | inl interrupted ↦
                  Passed-trans j there (epoll_loop-Passed fuel msec n s1 t (rw interrupted at r2))
              | inr other ↦ let wrong = rw other at r2 in cc
            ]
        | inr came ↦
            let r2 = rw came at r1 in
            let s2 : Rt = record s1 {
              global = record (s1.global) {
                all_p =
                    update s1.global.all_p j
                      (record (s1.global.all_p j) { eventlist = e.events s1.trace });
              };
            } in
            let is : s2 ≡ t = cc in
            Passed-trans j there (
              rw (← is) (record {
                own = refl;
                heap = refl;
                scheds = refl;
                ready = rw (==_refl j);
                sleeping = rw (==_refl j);
                waiting = rw (==_refl j);
                number = refl;
              }))
      ]

  number_set :
      (n : ℕ) (s : Rt)
      → Passed j s (record s {
        global = record (s.global) {
          all_p = update s.global.all_p j (record (s.global.all_p j) { num_new_events = n });
        };
      })
  number_set n s = record {
    own = refl;
    heap = refl;
    scheds = refl;
    ready = rw (==_refl j);
    sleeping = rw (==_refl j);
    waiting = rw (==_refl j);
    number = refl;
  }

  wait-Passed :
      (fuel msec : ℕ) (waits : Bool) (s t : Rt)
      → when waits (do n ← epoll_loop fuel j msec; set_p j (λ q. record q { num_new_events = n })) s
        ≡ ok tt t
      → Passed j s t
  wait-Passed fuel msec true s t run =
      let (n, m, polled, set) =
        bind-eq-ok (epoll_loop fuel j msec s) (λ n. set_p j (λ q. record q { num_new_events = n }))
          run in
      let end : Rt = record m {
        global = record (m.global) {
          all_p = update m.global.all_p j (record (m.global.all_p j) { num_new_events = n });
        };
      } in
      let is : end ≡ t = cc in
      Passed-trans j (epoll_loop-Passed fuel msec n s m polled) (rw is at (number_set n m))
  wait-Passed fuel msec false s t run = let is : s ≡ t = cc in rw (← is) (Passed-refl j s)

  pub uthread_poll-Passed :
      (fuel i : ℕ) (s t : Rt)
      → s.tls ≡ some i
      → (s.global.all_sched i).p ≡ some j
      → uthread_poll fuel s ≡ ok tt t
      → Passed j s t
  unfolding uthread_poll min_timeout
  uthread_poll-Passed fuel i s t own bound run =
      let s1 : Rt = record s {
        global = record (s.global) {
          all_p = update s.global.all_p j (record (s.global.all_p j) { num_new_events = 0 });
        };
      } in
      let r1 = rw (deref-some s.tls s own) at run in
      let r2 = rw (deref-some (s.global.all_sched i).p s bound) at r1 in
      let (usecs, s2, timed, r3) = bind-eq-ok (min_timeout i s1) _ r2 in
      let timed' = rw (deref-some (s.global.all_sched i).p s1 bound) at timed in
      let there : Passed j s s2 =
        Passed-trans j (number_set 0 s)
          (time_until-Passed (e.rb_min (s1.global.all_p j).sleeping) usecs s1 s2 timed') in
      Passed-trans j there (
        wait-Passed fuel (msec_of (timespec_of usecs))
          (not (usecs == 0) && is_empty (s2.global.all_p j).ready) s2 t r3)
