-- ===== src/Sleep/Collide.antt =====
-- uthread_sched.c: two uthreads of a p that would sleep until the same microsecond.
use uthread.Base.{
  ℕ, ◌+◌, ◌*◌, ◌%◌, ◌^◌, ◌<◌, ◌≡◌, ap, ◌∙◌, some, false, List, ◌∷◌, ◌==◌, if◌then◌else◌, ℤ, pos,
  update, count, arith,
}
use uthread.Types.{Ptr, Uthread}
use uthread.Machine.{
  Rt, fault, assert_failed, Call, Cell, live, Env, peek, get_usec_now, load_live, store_live,
  update_self, deref-some,
}
use uthread.Lifecycle.{sleep_cmp}
use uthread.Sleep.{sleep_order, forever_msec, sleep_enter, sched_sleep}

-- RB_INSERT gives back a member where one is equal to the new node.
abbrev pub GivesEqual : Env → Type 0
GivesEqual e =
    (order : Ptr → Ptr → ℤ) (a x : Ptr) (l : List Ptr)
    → 0 < count x l
    → order a x ≡ pos 0
    → (y : Ptr) × ((e.rb_insert order a l).1 ≡ some y)

-- the time until which `_uthread_sched_sleep` sleeps, from the time that it reads
abbrev pub wake_time : ℕ × ℕ → ℕ → ℕ
wake_time (sec, usec) ms =
    let msec = if ms == 0 then forever_msec else ms in
    ((sec * 1000000 + usec) % 2 ^ 64 + msec * 1000) % 2 ^ 64

sleep_cmp-equal : (u v : Uthread) → v.wakeup_time_usec ≡ u.wakeup_time_usec → sleep_cmp u v ≡ pos 0
unfolding sleep_cmp
sleep_cmp-equal u v same = ground arith

sleep_order-equal :
    (h : Ptr → Cell) (a x : Ptr) (u v : Uthread)
    → h a ≡ live u
    → h x ≡ live v
    → v.wakeup_time_usec ≡ u.wakeup_time_usec
    → sleep_order h a x ≡ pos 0
sleep_order-equal h a x u v one two same =
    let first : peek h a ≡ u = ap (λ (c : Cell). peek (λ y. c) 0) one in
    let second : peek h x ≡ v = ap (λ (c : Cell). peek (λ y. c) 0) two in
    ap (λ w. sleep_cmp w (peek h x)) first
    ∙ ap (λ w. sleep_cmp u w) second
    ∙ sleep_cmp-equal u v same

module _ ⦃e : Env⦄ (gives : GivesEqual e) where
  -- Where RB_INSERT gives back an equal member: a uthread that goes to sleep until the very microsecond
  -- until which another uthread of its p sleeps fails an assertion.
  pub sched_sleep-collides :
      (a x : Ptr) (ms j : ℕ) (s : Rt) (u v : Uthread)
      → s.heap a ≡ live u
      → u.p ≡ some j
      → (x == a) ≡ false
      → s.heap x ≡ live v
      → 0 < count x (s.global.all_p j).sleeping
      → v.wakeup_time_usec ≡ wake_time (e.clock s.trace) ms
      → sched_sleep a ms s ≡ fault assert_failed
  unfolding sched_sleep sleep_enter get_usec_now
  sched_sleep-collides a x ms j s u v alive home apart other member same =
      let s0 : Rt = record s { trace = Call.gettimeofday ∷ s.trace } in
      let wake = wake_time (e.clock s.trace) ms in
      let timed = λ (w : Uthread). record w { wakeup_time_usec = wake } in
      let h1 : Ptr → Cell = update s.heap a (live (timed u)) in
      let s1 : Rt = record s0 { heap = h1 } in
      let equal : sleep_order h1 a x ≡ pos 0 =
        sleep_order-equal h1 a x (timed u) v (update_self s.heap a (live (timed u)))
          (rw apart other) same in
      let (y, there) = gives (sleep_order h1) a x (s.global.all_p j).sleeping member equal in
      rw (
        store_live a s0 timed alive,
        load_live a s1 (update_self s.heap a (live (timed u))),
        deref-some u.p s1 home,
        there,
      )
