-- ===== src/Turns/Acts.antt =====
-- What a uthread does without a switch, as a move of the places.
use uthread.Base.{
  ◌+◌, true, ℕ, ◌≡◌, refl, ap, ◌∙◌, ==_refl, sym, Option, some, false, ℤ, pos, minus_one,
}
use uthread.Status.{Event, has, set_bit, clear_bit, rd, wr}
use uthread.Status.St
use uthread.Status.Laws.{has-set_bit, has-clear_bit}
use uthread.Types.{Ptr, Uthread, GlobalData, zero_uthread, stack_bytes}
use uthread.Machine.{Rt, ok, live, Env, Call, status_clear, store, bind-eq-ok}
use uthread.Sleep.{wait_bit, wait_leave}
use uthread.Create.{create_on, is_null}
use uthread.Create.Made.{made, locked, create_on-made, create_on_unmade}
use uthread.Resume.Leave.{Mutex}
use uthread.Turns.{Place, is_live, Represents}
use uthread.Turns.Facts.{joined_of, Represents-running}
use uthread.Turns.Trees.{RbLaws}
use uthread.Turns.Marks.{Marks, Marks-live, Marks-trans, Marks-store}
use uthread.Turns.Touch.{touched-Represents}
use uthread.Turns.Main.{main_number, new_status, create_main_enter-Represents}
use uthread.Turns.Creates.{made-Represents, unmade-Represents, absent_facts}
use uthread.Turns.Move.{Heeds, fails, counts, Move, created, failed, stayed}
use uthread.Turns.Step.{
  lost_act, Passed, Act, creates, creates_none, begins_main, wakes, waited, detaches, passes,
}

module _ ⦃e : Env⦄ where
  wait_bit_keeps :
      (n : ℕ) (ev : Event)
      → (has (clear_bit n (wait_bit ev)) St.exited ≡ has n St.exited)
        × (has (clear_bit n (wait_bit ev)) St.sleeping ≡ has n St.sleeping)
  wait_bit_keeps n rd = (has-clear_bit n 7 2, has-clear_bit n 7 3)
  wait_bit_keeps n wr = (has-clear_bit n 8 2, has-clear_bit n 8 3)

  wait_leave-Marks :
      (a : Ptr) (ev : Event) (u : Uthread) (s t : Rt)
      → s.heap a ≡ live u
      → has u.status St.sleeping ≡ false
      → wait_leave a ev s ≡ ok tt t
      → Marks a u s t
  unfolding wait_leave
  wait_leave-Marks a ev u s t alive awake run =
      let (_, r, named, cleared) =
        bind-eq-ok (store a (λ v. record v { fd_wait = minus_one }) s)
          (λ _. status_clear a (wait_bit ev)) run in
      let m =
        Marks-store a u s r (λ v. record v { fd_wait = minus_one }) alive refl refl refl refl
          (λ h. let wrong : true ≡ false = sym h ∙ awake in cc) named in
      let (ended', asleep') = wait_bit_keeps m.block.status ev in
      Marks-trans a u s r t m (
        Marks-store a m.block r t (λ v. record v { status = clear_bit v.status (wait_bit ev) })
          (Marks-live a u s r m) refl refl ended' asleep' (λ h. refl) cleared)

pub pass-Represents :
    (i j : ℕ) (place : Ptr → Place) (s t : Rt)
    → Represents i j place s
    → Passed j s t
    → Represents i j place t
pass-Represents i j place s t before k = record {
  own = k.own ∙ before.own;
  bound = rw k.scheds before.bound;
  cells = rw k.heap before.cells;
  readies = rw k.ready before.readies;
  sleepers = rw k.sleeping before.sleepers;
  current = rw k.scheds before.current;
  waiters = rw k.waiting before.waiters;
  joiners = rw (k.heap, k.waiting) before.joiners;
  once = rw k.heap before.once;
  keyed = rw (k.heap, k.waiting) before.keyed;
  sole = rw (k.heap, k.waiting) before.sole;
}

module _ ⦃e : Env⦄ (laws : RbLaws e) (mutex : Mutex e) (i j : ℕ) (place : Ptr → Place) (s t : Rt)
    (before : Represents i j place s) where
  -- Some move leads to a placing of `t` and to its number of uthreads, wakes the joiner of a uthread that
  -- ends, and makes `k` of the number of failed creations.
  abbrev pub Moved : (ℕ → ℕ) → Type 0
  Moved k =
      (q : Ptr → Place) × (m : Move place q) × Represents i j q t
      × (t.global.n_uthread ≡ counts m s.global.n_uthread)
      × Heeds m (λ a. joined_of (s.heap a))
      × ((f : ℕ) → fails m f ≡ k f)

  Marks-Moved : (a : Ptr) (u : Uthread) → s.heap a ≡ live u → Marks a u s t → Moved (λ f. f)
  Marks-Moved a u alive m = (
    place,
    stayed refl,
    touched-Represents i j place a u s t before alive m,
    ap (λ (g : GlobalData). g.n_uthread) m.global,
    tt,
    λ f. refl,
  )

  clear_Moved :
      (a : Ptr)
      → (s.global.all_sched i).cur_uthread ≡ some a
      → status_clear a St.sleeping s ≡ ok tt t
      → Moved (λ f. f)
  clear_Moved a cur run =
      let (_, (u, alive, _, _, awake)) = Represents-running i j place s a before cur in
      Marks-Moved a u alive (
        Marks-store a u s t (λ v. record v { status = clear_bit v.status St.sleeping }) alive refl
          refl (has-clear_bit u.status 3 2) (has-clear_bit u.status 3 3 ∙ sym awake) (λ h. refl)
          run)

  create_Moved :
      (func arg a r : ℕ) (out : ℤ × Option Ptr)
      → e.reply s.trace Call.calloc ≡ pos a
      → is_null (pos a) ≡ false
      → is_live (s.heap a) ≡ false
      → e.reply (locked s.trace) (Call.posix_memalign stack_bytes) ≡ pos r
      → is_null (pos r) ≡ false
      → create_on i func arg s ≡ ok out t
      → Moved (λ f. f)
  create_Moved func arg a r out block there dead stack room run =
      let (n, done, _, global, heap, own) =
        create_on-made mutex i j func arg a r s before.bound block there stack room in
      let is : n ≡ t = cc in
      let (going, awake, _, _) = new_status in
      let (free, _, _, _, _) = absent_facts i j place s a before dead in
      (
        _,
        created a free refl,
        rw (← is) (
            made-Represents i j place s n a (made s.global.next_ut_id r (some j) func arg) before
              dead refl going awake refl own heap (ap (λ (g : GlobalData). g.all_sched) global)
              (ap (λ (g : GlobalData). g.all_p j) global ∙ rw (==_refl j))),
        ap (λ (r : Rt). r.global.n_uthread) (sym is) ∙ ap (λ (g : GlobalData). g.n_uthread) global,
        tt,
        λ f. refl,
      )

  refused_Moved :
      (func arg a : ℕ) (out : ℤ × Option Ptr)
      → e.reply s.trace Call.calloc ≡ pos a
      → is_null (pos a) ≡ false
      → is_live (s.heap a) ≡ false
      → e.reply (locked s.trace) (Call.posix_memalign stack_bytes) ≡ pos 0
      → create_on i func arg s ≡ ok out t
      → Moved (λ f. f + 1)
  refused_Moved func arg a out block there dead full run =
      let (n, done, _, global, heap, own) =
        create_on_unmade mutex i func arg a s block there full in
      let is : n ≡ t = cc in
      let (free, after) =
        unmade-Represents i j place s n a (record zero_uthread { id = s.global.next_ut_id }) before
          dead own heap global in
      (
        _,
        failed a free refl,
        rw (← is) after,
        ap (λ (r : Rt). r.global.n_uthread) (sym is) ∙ ap (λ (g : GlobalData). g.n_uthread) global,
        tt,
        λ f. refl,
      )

  pub Act-Moved : (act : Act i j s t) → Moved (lost_act act)
  Act-Moved (creates func arg a r out block there dead stack room run) =
      create_Moved func arg a r out block there dead stack room run
  Act-Moved (creates_none func arg a out block there dead full run) =
      refused_Moved func arg a out block there dead full run
  Act-Moved (begins_main a out block there dead run) =
      let (free, _, _, _, _) = absent_facts i j place s a before dead in
      (
        _,
        created a free refl,
        create_main_enter-Represents i j place s t a out before block there dead run,
        main_number i j s t a out before.bound block there run,
        tt,
        λ f. refl,
      )
  Act-Moved (wakes a cur run) = clear_Moved a cur run
  Act-Moved (waited a ev cur run) =
      let (_, (u, alive, _, _, awake)) = Represents-running i j place s a before cur in
      Marks-Moved a u alive (wait_leave-Marks a ev u s t alive awake run)
  Act-Moved (detaches b w alive run) = Marks-Moved b w alive (
      Marks-store b w s t (λ v. record v { status = set_bit v.status St.detached }) alive refl refl
        (has-set_bit w.status 4 2) (has-set_bit w.status 4 3) (λ h. refl) run)
  Act-Moved (passes passed) = (
    place,
    stayed refl,
    pass-Represents i j place s t before passed,
    passed.number,
    tt,
    λ f. refl,
  )
