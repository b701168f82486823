-- ===== src/Turns/Waits.antt =====
-- The ways in which the running uthread goes to sleep: for a time, and for a descriptor.
use mathlib.Core.Path.{sym, subst}
use uthread.Base.{
  ℕ, ◌≡◌, refl, ap, ◌∙◌, some, false, List, ◌∷◌, ◌==◌, ==_refl, if◌then◌else◌, count, update, arith,
  Bool-cases, inl, inr, ℤ, pos, eqb_ℤ, minus_one,
}
use uthread.Status.{Event, rd, wr, event_code, has, set_bit}
use uthread.Status.St
use uthread.Status.Laws.{has-set_bit}
use uthread.Types.{GlobalData, Ptr, Uthread}
use uthread.Machine.{
  M, Rt, ok, Cell, live, Env, Call, syscall, store_live, load_live, update_self, deref-some,
  bind-eq-ok, ◌>>◌,
}
use uthread.Sleep.{wait_enter, wait_order, wait_bit, fd_key}
use uthread.Turns.{waits_for, waits_for, Place, Represents}
use uthread.Turns.Keys.{Unwaited-fits, Unwaited}
use uthread.Turns.Facts.{count_absent, count_absent, Represents-running, running_alone, joined_of}
use uthread.Turns.Trees.{RbLaws}
use uthread.Turns.Sleep.{turn_sleep, turn_sleep_lem}
use uthread.Turns.Asleep.{Ready, slept-Represents}

-- The block `c` holds `u`, with a case for its address.
pub heap_case :
    (a b : Ptr) (h : Ptr → Cell) (u : Uthread)
    → h a ≡ live u
    → h b ≡ (if b == a then live u else h b)
heap_case a b h u alive = elim (Bool-cases (b == a)) [
  | inl hit ↦ let is : b ≡ a = ground arith in rw (hit, is) alive
  | inr miss ↦ rw miss
]

-- a running uthread may go to sleep as it is
pub plain_Ready :
    (i j : ℕ) (place : Ptr → Place) (s : Rt) (a : Ptr) (u : Uthread)
    → Represents i j place s
    → (s.global.all_sched i).cur_uthread ≡ some a
    → s.heap a ≡ live u
    → u.p ≡ some j
    → has u.status St.exited ≡ false
    → waits_for (s.heap a) ≡ minus_one
    → Ready j a u (s.global.all_p j).waiting s s
plain_Ready i j place s a u before cur alive home going free =
    let (runs, _) = Represents-running i j place s a before cur in
    let (_, _, no_wait) = running_alone i j place s a before runs in
    record {
      own = refl;
      heap = λ b. heap_case a b s.heap u alive;
      scheds = refl;
      tree = refl;
      waiting = record {
        now = 0;
        few = omega arith;
        counts = λ b. count_absent a b (s.global.all_p j).waiting no_wait;
        key = λ k lies is. let wrong : minus_one ≡ pos k = sym free ∙ ap waits_for alive ∙ is in cc;
        lone = λ b apart one two same. absurd (omega (arith, one));
      };
      number = refl;
      home = home;
      going = going;
      joined = λ x link. ap (λ (q : Cell). joined_of q) alive ∙ link;
    }

wait_bit-exited :
    ⦃e : Env⦄ (n : ℕ) (ev : Event) → has (set_bit n (wait_bit ev)) St.exited ≡ has n St.exited
wait_bit-exited n rd = has-set_bit n 7 2
wait_bit-exited n wr = has-set_bit n 8 2

module _ ⦃e : Env⦄ where
  -- a uthread waits for a descriptor
  unfoldable pub turn_wait : ℕ → Ptr → ℤ → Event → ℕ → M (Unit {0})
  turn_wait i a fd ev ms = do wait_enter a fd ev; turn_sleep i a ms

module _ ⦃e : Env⦄ (laws : RbLaws e) where
  pub turn_sleep-Represents :
      (i j : ℕ) (place : Ptr → Place) (s t : Rt) (a : Ptr) (ms : ℕ)
      → Represents i j place s
      → (s.global.all_sched i).cur_uthread ≡ some a
      → waits_for (s.heap a) ≡ minus_one
      → turn_sleep i a ms s ≡ ok tt t
      → Represents i j (update place a Place.asleep) t × (t.global.n_uthread ≡ s.global.n_uthread)
  turn_sleep-Represents i j place s t a ms before cur free run =
      let (runs, (u, alive, home, going, awake)) = Represents-running i j place s a before cur in
      let (m, k, end) =
        turn_sleep_lem i j a ms s t u before.own before.bound cur alive home going run in
      rw end (
        slept-Represents laws i j place s s m a u (s.global.all_p j).waiting before cur
            (plain_Ready i j place s a u before cur alive home going free) k,
        ap (λ (g : GlobalData). g.n_uthread) k.global,
      )

  wait_enter_lem :
      (i j : ℕ) (place : Ptr → Place) (a : Ptr) (fd : ℤ) (ev : Event) (s m : Rt) (u : Uthread)
      → Represents i j place s
      → s.heap a ≡ live u
      → u.p ≡ some j
      → has u.status St.exited ≡ false
      → count a (s.global.all_p j).waiting ≡ 0
      → Unwaited j fd ev s
      → wait_enter a fd ev s ≡ ok tt m
      → (v : Uthread) × (l : List Ptr) × (m.heap a ≡ live v) × Ready j a v l s m
  unfolding wait_enter syscall
  wait_enter_lem i j place a fd ev s m u before alive home going new alone run =
      let own = before.own in
      let bound = before.bound in
      let c : Call = Call.epoll_add (s.global.all_p j).poller_fd fd ev in
      let r = e.reply s.trace c in
      elim (Bool-cases (eqb_ℤ r (pos 0))) [
        | inr refused ↦
            let stuck =
              rw (deref-some s.tls s own, deref-some (s.global.all_sched i).p s bound, refused) at
                run in
            cc
        | inl granted ↦
            let s1 : Rt = record s {
              errno = if eqb_ℤ r minus_one then e.errno_of s.trace c else s.errno;
              trace = c ∷ s.trace;
            } in
            let mark = λ (v : Uthread). record v { status = set_bit v.status (wait_bit ev) } in
            let name = λ (v : Uthread). record v { fd_wait = fd_key fd (event_code ev) } in
            let h1 : Ptr → Cell = update s.heap a (live (mark u)) in
            let h2 : Ptr → Cell = update h1 a (live (name (mark u))) in
            let s2 : Rt = record s1 { heap = h2 } in
            let l = (e.rb_insert (wait_order h2) a (s.global.all_p j).waiting).0 in
            let s3 : Rt = record s2 {
              global = record (s.global) {
                all_p = update s.global.all_p j (record (s.global.all_p j) { waiting = l });
              };
            } in
            let done : ok tt s3 ≡ ok tt m =
              rw
                (
                  deref-some s.tls s own,
                  deref-some (s.global.all_sched i).p s bound,
                  granted,
                  store_live a s1 mark alive,
                  store_live a (record s1 { heap = h1 }) name
                      (update_self s.heap a (live (mark u))),
                  load_live a s2 (update_self h1 a (live (name (mark u)))),
                  deref-some u.p s2 home,
                )
                at run in
            let end : s3 ≡ m = cc in
            let fits =
              Unwaited-fits laws i j place a fd ev s h2 (name (mark u)) before
                (update_self h1 a (live (name (mark u)))) refl (λ x miss. rw miss) new alone in
            subst
              (λ (q : Rt). (v : Uthread) × (l : List Ptr) × (q.heap a ≡ live v) × Ready j a v l s q)
              end
              (
                name (mark u),
                l,
                update_self h1 a (live (name (mark u))),
                record {
                  own = refl;
                  heap = λ b. elim (Bool-cases (b == a)) [ inl hit ↦ rw hit | inr miss ↦ rw miss ];
                  scheds = refl;
                  tree = rw (==_refl j);
                  waiting = record {
                    now = 1;
                    few = omega arith;
                    counts = λ b.
                        rw (==_refl j)
                          (laws.inserted (wait_order h2) a (s.global.all_p j).waiting new fits b);
                    key = λ k lies is. refl;
                    lone = λ b apart one two same. alone b two (sym same);
                  };
                  number = refl;
                  home = home;
                  going = wait_bit-exited u.status ev ∙ going;
                  joined = λ x link. ap (λ (q : Cell). joined_of q) alive ∙ link;
                },
              )
      ]

  pub turn_wait-Represents :
      (i j : ℕ) (place : Ptr → Place) (s t : Rt) (a : Ptr) (fd : ℤ) (ev : Event) (ms : ℕ)
      → Represents i j place s
      → (s.global.all_sched i).cur_uthread ≡ some a
      → Unwaited j fd ev s
      → turn_wait i a fd ev ms s ≡ ok tt t
      → Represents i j (update place a Place.asleep) t × (t.global.n_uthread ≡ s.global.n_uthread)
  unfolding turn_wait
  turn_wait-Represents i j place s t a fd ev ms before cur alone run =
      let (runs, (u, alive, home, going, awake)) = Represents-running i j place s a before cur in
      let (no_ready, no_sleep, no_wait) = running_alone i j place s a before runs in
      let (_, q, entered, slept) = bind-eq-ok (wait_enter a fd ev s) (λ _. turn_sleep i a ms) run in
      let (v, l, alive', ready) =
        wait_enter_lem i j place a fd ev s q u before alive home going no_wait alone entered in
      let bound : (q.global.all_sched i).p ≡ some j = rw ready.scheds before.bound in
      let cur' : (q.global.all_sched i).cur_uthread ≡ some a = rw ready.scheds cur in
      let (m, k, end) =
        turn_sleep_lem i j a ms q t v (ready.own ∙ before.own) bound cur' alive' ready.home
          ready.going slept in
      rw end (
        slept-Represents laws i j place s q m a v l before cur ready k,
        ap (λ (g : GlobalData). g.n_uthread) k.global ∙ ready.number,
      )
