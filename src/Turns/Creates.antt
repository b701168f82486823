-- ===== src/Turns/Creates.antt =====
-- The running uthread creates another one.
use uthread.Base.{
  ℕ, ◌≡◌, refl, ap, ◌∙◌, sym, none, some, true, false, [], ◌∷◌, ◌++◌, ◌==◌, if◌then◌else◌, count,
  update, arith,
}
use uthread.Status.{has}
use uthread.Status.St
use uthread.Types.{Ptr, Uthread, P, Sched, GlobalData}
use uthread.Machine.{Rt, Cell, live, freed}
use uthread.Create.Made.{counted}
use uthread.Turns.{Place, gone, in_ready, in_sleep, in_run, Fits, is_live, Represents, here}
use uthread.Turns.Facts.{count_absent, count_added, count-last, joined_of}
use uthread.Turns.Moved.{no-Waits, moved}
use uthread.Turns.Touch.{case_same}

gone-inv : (j : ℕ) (p : Place) (c : Cell) → Fits j p c → is_live c ≡ false → p ≡ gone
gone-inv j Place.gone c fits dead = refl
gone-inv j Place.queued c (u, is, _, _, _) dead =
    let wrong : true ≡ false = ap is_live (sym is) ∙ dead in cc
gone-inv j Place.running c (u, is, _, _, _) dead =
    let wrong : true ≡ false = ap is_live (sym is) ∙ dead in cc
gone-inv j Place.asleep c (u, is, _, _, _) dead =
    let wrong : true ≡ false = ap is_live (sym is) ∙ dead in cc

-- what is known of an address that holds no uthread
pub absent_facts :
    (i j : ℕ) (place : Ptr → Place) (s : Rt) (a : Ptr)
    → Represents i j place s
    → is_live (s.heap a) ≡ false
    → (place a ≡ gone)
      × (count a (s.global.all_p j).ready ≡ 0)
      × (count a (s.global.all_p j).sleeping ≡ 0)
      × (here a (s.global.all_sched i).cur_uthread ≡ 0)
      × (count a (s.global.all_p j).waiting ≡ 0)
absent_facts i j place s a before dead =
    let is = gone-inv j (place a) (s.heap a) (before.cells a) dead in
    (
      is,
      before.readies a ∙ ap in_ready is,
      before.sleepers a ∙ ap in_sleep is,
      before.current a ∙ ap in_run is,
      omega (arith, before.waiters a, ap in_sleep is),
    )

-- Nobody that a block names as its joiner is gone.
unheld :
    (i j : ℕ) (place : Ptr → Place) (s : Rt) (a b : Ptr) (w : Uthread)
    → Represents i j place s
    → place a ≡ gone
    → s.heap b ≡ live w
    → w.ut_joined ≡ some a
    → false ≡ true
unheld i j place s a b w before is stood link =
    let (sleeps, _) = before.joiners b a w stood link in cc

-- From `s` to `t` the block `a`, of nobody, becomes that of a new uthread, which is made ready.
pub made-Represents :
    (i j : ℕ) (place : Ptr → Place) (s t : Rt) (a : Ptr) (block : Uthread)
    → Represents i j place s
    → is_live (s.heap a) ≡ false
    → block.p ≡ some j
    → has block.status St.exited ≡ false
    → has block.status St.sleeping ≡ false
    → block.ut_joined ≡ none
    → t.tls ≡ s.tls
    → ((b : Ptr) → t.heap b ≡ (if b == a then live block else s.heap b))
    → t.global.all_sched ≡ s.global.all_sched
    → t.global.all_p j ≡ record (s.global.all_p j) { ready = (s.global.all_p j).ready ++ (a ∷ []) }
    → Represents i j (update place a Place.queued) t
made-Represents i j place s t a block before dead home going awake unjoined own heap scheds ps =
    let (is, no_ready, no_sleep, no_run, no_wait) = absent_facts i j place s a before dead in
    moved i j a Place.queued (live block) place s t before (record {
      own = own ∙ before.own;
      bound = ap (λ (f : ℕ → Sched). (f i).p) scheds ∙ before.bound;
      fits = (block, refl, home, going, awake);
      heap = heap;
      ready = λ b.
          ap (λ (p : P). count b p.ready) ps
          ∙ count-last a b (s.global.all_p j).ready
          ∙ count_added a b (s.global.all_p j).ready no_ready;
      sleeping = λ b.
          ap (λ (p : P). count b p.sleeping) ps
          ∙ count_absent a b (s.global.all_p j).sleeping no_sleep;
      current = λ b.
          ap (λ (f : ℕ → Sched). here b (f i).cur_uthread) scheds
          ∙ case_same (λ y. here y (s.global.all_sched i).cur_uthread) a b 0 no_run;
      waiting = no-Waits refl (λ b.
          ap (λ (p : P). count b p.waiting) ps
          ∙ count_absent a b (s.global.all_p j).waiting no_wait);
      joins = λ u y is' link.
          let none_yet : block.ut_joined ≡ u.ut_joined = ap (λ (q : Cell). joined_of q) is' in cc;
      held = λ b w stood link. let wrong = unheld i j place s a b w before is stood link in cc;
    })

-- From `s` to `t` the block `a`, of nobody, was used and freed again.
pub unmade-Represents :
    (i j : ℕ) (place : Ptr → Place) (s t : Rt) (a : Ptr) (u : Uthread)
    → Represents i j place s
    → is_live (s.heap a) ≡ false
    → t.tls ≡ s.tls
    → ((b : Ptr) → t.heap b ≡ (if b == a then freed u else s.heap b))
    → t.global ≡ counted s.global
    → (place a ≡ gone) × Represents i j (update place a Place.gone) t
unmade-Represents i j place s t a u before dead own heap global =
    let (is, no_ready, no_sleep, no_run, no_wait) = absent_facts i j place s a before dead in
    let ps : t.global.all_p j ≡ s.global.all_p j = ap (λ (g : GlobalData). g.all_p j) global in
    let scheds : t.global.all_sched ≡ s.global.all_sched =
      ap (λ (g : GlobalData). g.all_sched) global in
    (
      is,
      moved i j a Place.gone (freed u) place s t before (record {
        own = own ∙ before.own;
        bound = ap (λ (f : ℕ → Sched). (f i).p) scheds ∙ before.bound;
        fits = refl;
        heap = heap;
        ready = λ b.
            ap (λ (p : P). count b p.ready) ps ∙ count_absent a b (s.global.all_p j).ready no_ready;
        sleeping = λ b.
            ap (λ (p : P). count b p.sleeping) ps
            ∙ count_absent a b (s.global.all_p j).sleeping no_sleep;
        current = λ b.
            ap (λ (f : ℕ → Sched). here b (f i).cur_uthread) scheds
            ∙ case_same (λ y. here y (s.global.all_sched i).cur_uthread) a b 0 no_run;
        waiting = no-Waits refl (λ b.
            ap (λ (p : P). count b p.waiting) ps
            ∙ count_absent a b (s.global.all_p j).waiting no_wait);
        joins = λ w y is' link. cc;
        held = λ b w stood link. let wrong = unheld i j place s a b w before is stood link in cc;
      }),
    )
