-- ===== src/Sleep/Twice.antt =====
-- uthread_sched.c: two uthreads of a p that wait for the same descriptor.
use uthread.Base.{
  ℕ, ◌≡◌, ap, ◌∙◌, sym, Option, none, some, Bool, true, false, not, ◌||◌, ◌&&◌, List, [], ◌∷◌, ◌++◌,
  ℤ, pos, minus_one, eqb_ℤ, if◌then◌else◌, update, arith, Bool-cases, Option-cases, inl, inr,
}
use uthread.Status.{Event, event_code, set_bit}
use uthread.Types.{Ptr, Uthread}
use uthread.Machine.{
  Rt, ok, fault, assert_failed, Call, Cell, live, Env, syscall, syscall_fails, load_live,
  store_live, update_self, deref-some,
}
use uthread.Sleep.{wait_bit, fd_key, wait_enter, register_event}

-- what a call does to the registration of a descriptor with an epoll instance
abbrev effect : ℤ → ℤ → Call → Option Bool
effect poller fd (Call.epoll_add p f ev) = if eqb_ℤ p poller && eqb_ℤ f fd then some true else none
effect poller fd (Call.epoll_del p f) = if eqb_ℤ p poller && eqb_ℤ f fd then some false else none
effect poller fd _ = none

-- whether it is registered after the calls of a trace
abbrev pub registered : ℤ → ℤ → List Call → Bool
registered poller fd [] = false
registered poller fd (c ∷ tr) = elim (effect poller fd c) [
  | none ↦ registered poller fd tr
  | some b ↦ b
]

-- whether a trace removes it
abbrev pub removed : ℤ → ℤ → List Call → Bool
removed poller fd [] = false
removed poller fd (c ∷ tr) = elim (effect poller fd c) [
  | none ↦ removed poller fd tr
  | some b ↦ not b || removed poller fd tr
]

-- The kernel refuses to register a descriptor that is registered.
abbrev pub RefusesTwice : Env → Type 0
RefusesTwice e =
    (tr : List Call) (poller fd : ℤ) (ev : Event)
    → registered poller fd tr ≡ true
    → e.reply tr (Call.epoll_add poller fd ev) ≡ minus_one

registered-append :
    (poller fd : ℤ) (later tr : List Call)
    → registered poller fd tr ≡ true
    → removed poller fd later ≡ false
    → registered poller fd (later ++ tr) ≡ true
registered-append poller fd [] tr there kept = there
registered-append poller fd (c ∷ later) tr there kept = elim (Option-cases (effect poller fd c)) [
  | inl neither ↦
      rw (neither, registered)
        (registered-append poller fd later tr there (rw (neither, removed) at kept))
  | inr (b, change) ↦
      let stays : (not b || removed poller fd later) ≡ false = rw (change, removed) at kept in
      rw (change, registered) (ground arith)
]

registered-add :
    (poller fd : ℤ) (ev : Event) (tr : List Call)
    → registered poller fd (Call.epoll_add poller fd ev ∷ tr) ≡ true
registered-add poller fd ev tr = ground arith

module _ ⦃e : Env⦄ where
  wait_enter-registers :
      (i j k : ℕ) (a : Ptr) (fd : ℤ) (ev : Event) (s m : Rt) (u : Uthread)
      → s.tls ≡ some i
      → (s.global.all_sched i).p ≡ some j
      → s.heap a ≡ live u
      → u.p ≡ some k
      → wait_enter a fd ev s ≡ ok tt m
      → registered (s.global.all_p j).poller_fd fd m.trace ≡ true
  unfolding wait_enter syscall
  wait_enter-registers i j k a fd ev s m u own bound alive home run =
      let c : Call = Call.epoll_add (s.global.all_p j).poller_fd fd ev in
      let r = e.reply s.trace c in
      let here : registered (s.global.all_p j).poller_fd fd (c ∷ s.trace) ≡ true =
        registered-add (s.global.all_p j).poller_fd fd ev s.trace in
      elim (Bool-cases (eqb_ℤ r (pos 0))) [
        | inr refused ↦
            let stuck =
              rw (deref-some s.tls s own, deref-some (s.global.all_sched i).p s bound, refused) at
                run in
            cc
        | inl granted ↦
            let s1 : Rt = record s {
              errno = if eqb_ℤ r minus_one then e.errno_of s.trace c else s.errno;
              trace = c ∷ s.trace;
            } in
            let mark = λ (v : Uthread). record v { status = set_bit v.status (wait_bit ev) } in
            let name = λ (v : Uthread). record v { fd_wait = fd_key fd (event_code ev) } in
            let h1 : Ptr → Cell = update s.heap a (live (mark u)) in
            let s2 : Rt = record s1 { heap = update h1 a (live (name (mark u))) } in
            let done =
              rw
                (
                  deref-some s.tls s own,
                  deref-some (s.global.all_sched i).p s bound,
                  granted,
                  store_live a s1 mark alive,
                  store_live a (record s1 { heap = h1 }) name
                      (update_self s.heap a (live (mark u))),
                  load_live a s2 (update_self h1 a (live (name (mark u)))),
                  deref-some u.p s2 home,
                )
                at run in
            let trace : c ∷ s.trace ≡ m.trace = cc in
            ap (registered (s.global.all_p j).poller_fd fd) (sym trace) ∙ here
      ]

  -- Where the kernel refuses to register a descriptor twice: once a uthread waits for a descriptor, a
  -- second uthread of the same p that wants to wait for it, for the same event or the other one, fails
  -- an assertion, in every later state whose calls in between have not removed the registration.
  pub second_wait_aborts :
      (refuses : RefusesTwice e) (i j k : ℕ) (a b : Ptr) (fd : ℤ) (ev ev' : Event) (ms : ℕ)
      (s m r : Rt) (u : Uthread) (later : List Call)
      → s.tls ≡ some i
      → (s.global.all_sched i).p ≡ some j
      → s.heap a ≡ live u
      → u.p ≡ some k
      → wait_enter a fd ev s ≡ ok tt m
      → r.tls ≡ some i
      → (r.global.all_sched i).p ≡ some j
      → (r.global.all_p j).poller_fd ≡ (s.global.all_p j).poller_fd
      → r.trace ≡ later ++ m.trace
      → removed (s.global.all_p j).poller_fd fd later ≡ false
      → register_event b fd ev' ms r ≡ fault assert_failed
  unfolding register_event wait_enter
  second_wait_aborts refuses i j k a b fd ev ev' ms s m r u later own bound alive home entered own'
        bound' poller trace kept =
      let still =
        registered-append (s.global.all_p j).poller_fd fd later m.trace
          (wait_enter-registers i j k a fd ev s m u own bound alive home entered) kept in
      let there : registered (r.global.all_p j).poller_fd fd r.trace ≡ true =
        rw (poller, trace) still in
      let c : Call = Call.epoll_add (r.global.all_p j).poller_fd fd ev' in
      rw (deref-some r.tls r own') (
        rw (
          deref-some (r.global.all_sched i).p r bound',
          syscall_fails c r (refuses r.trace (r.global.all_p j).poller_fd fd ev' there),
        ))
