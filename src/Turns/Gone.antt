-- ===== src/Turns/Gone.antt =====
-- The running uthread ends, and the one that joined it is made ready.
use mathlib.Core.Path.{subst}
use uthread.Base.{
  ℕ, ◌≡◌, refl, ap, ◌∙◌, none, some, true, false, [], ◌∷◌, ◌++◌, ◌==◌, if◌then◌else◌, count, update,
  arith,
}
use uthread.Types.{Ptr, Uthread, P, Sched}
use uthread.Machine.{Rt, Cell, live, freed, Env}
use uthread.Turns.{Place, running, asleep, in_ready, in_sleep, in_run, Fits, Represents, here}
use uthread.Turns.Facts.{
  Represents-running, running_alone, count_absent, count_added, count-last, here-cur, joined_of,
}
use uthread.Turns.Trees.{RbLaws}
use uthread.Turns.Moved.{no-Waits, moved}
use uthread.Turns.Touch.{case_same}
use uthread.Turns.Dropped.{roused, roused_status}

-- From `r` to `t` the running uthread `a` ends: its block is freed, and the scheduler runs nothing.
pub gone-Represents :
    (i j : ℕ) (place : Ptr → Place) (r t : Rt) (a : Ptr) (v : Uthread)
    → Represents i j place r
    → (r.global.all_sched i).cur_uthread ≡ some a
    → t.tls ≡ r.tls
    → ((b : Ptr) → t.heap b ≡ (if b == a then freed v else r.heap b))
    → t.global.all_p ≡ r.global.all_p
    → t.global.all_sched i ≡ record (r.global.all_sched i) { cur_uthread = none }
    → Represents i j (update place a Place.gone) t
gone-Represents i j place r t a v before cur own heap ps sched =
    let (runs, _) = Represents-running i j place r a before cur in
    let (no_ready, no_sleep, no_wait) = running_alone i j place r a before runs in
    moved i j a Place.gone (freed v) place r t before (record {
      own = own ∙ before.own;
      bound = ap (λ (c : Sched). c.p) sched ∙ before.bound;
      fits = refl;
      heap = heap;
      ready = λ b. rw ps (count_absent a b (r.global.all_p j).ready no_ready);
      sleeping = λ b. rw ps (count_absent a b (r.global.all_p j).sleeping no_sleep);
      current = λ b.
          ap (λ (c : Sched). here b c.cur_uthread) sched
          ∙ ground (arith, here-cur a b (r.global.all_sched i).cur_uthread cur);
      waiting = no-Waits refl (λ b. rw ps (count_absent a b (r.global.all_p j).waiting no_wait));
      joins = λ w x is link. cc;
      held = λ b w stood link. let (sleeps, _) = before.joiners b a w stood link in cc;
    })

-- the block of the running uthread without its joiner
abbrev pub unlinked : Ptr → Uthread → Rt → Rt
unlinked a u s = record s { heap = update s.heap a (live (record u { ut_joined = none })) }

pub unlinked-Represents :
    (i j : ℕ) (place : Ptr → Place) (s : Rt) (a : Ptr) (u : Uthread)
    → Represents i j place s
    → place a ≡ running
    → s.heap a ≡ live u
    → Represents i j (update place a Place.running) (unlinked a u s)
unlinked-Represents i j place s a u before runs alive =
    let (v, is, home, going, awake) =
      subst (λ (p : Place). Fits j p (s.heap a)) runs (before.cells a) in
    let same : u ≡ v = cc in
    let (no_ready, no_sleep, no_wait) = running_alone i j place s a before runs in
    moved i j a Place.running (live (record u { ut_joined = none })) place s (unlinked a u s) before
      (record {
        own = before.own;
        bound = before.bound;
        fits = (record u { ut_joined = none }, refl, rw same home, rw same going, rw same awake);
        heap = λ b. refl;
        ready = λ b. count_absent a b (s.global.all_p j).ready no_ready;
        sleeping = λ b. count_absent a b (s.global.all_p j).sleeping no_sleep;
        current = λ b.
            case_same (λ x. here x (s.global.all_sched i).cur_uthread) a b 1
              (before.current a ∙ ap in_run runs);
        waiting = no-Waits refl (λ b. count_absent a b (s.global.all_p j).waiting no_wait);
        joins = λ w x is link.
            let none_left : none ≡ w.ut_joined = ap (λ (q : Cell). joined_of q) is in cc;
        held = λ b w stood link. let (sleeps, _) = before.joiners b a w stood link in cc;
      })

module _ ⦃e : Env⦄ (laws : RbLaws e) where
  -- From `r` to `t` the sleeper `x` goes to the ready queue. No block names it as a joiner.
  pub woken-Represents :
      (i j : ℕ) (place : Ptr → Place) (r t : Rt) (x : Ptr) (w : Uthread)
      → Represents i j place r
      → place x ≡ asleep
      → r.heap x ≡ live w
      → count x (r.global.all_p j).waiting ≡ 0
      → ((b : Ptr) (v : Uthread) → r.heap b ≡ live v → v.ut_joined ≡ some x → false ≡ true)
      → t.tls ≡ r.tls
      → ((b : Ptr) → t.heap b ≡ (if b == x then live (roused w) else r.heap b))
      → t.global.all_sched ≡ r.global.all_sched
      → t.global.all_p j ≡ record (r.global.all_p j) {
        sleeping = e.rb_remove x (r.global.all_p j).sleeping;
        ready = (r.global.all_p j).ready ++ (x ∷ []);
      }
      → Represents i j (update place x Place.queued) t
  woken-Represents i j place r t x w before lies alive no_wait alone own heap scheds ps =
      let (v, is, home, going, _) =
        subst (λ (p : Place). Fits j p (r.heap x)) lies (before.cells x) in
      let same : w ≡ v = cc in
      let (ended, awake) = roused_status w in
      let no_ready : count x (r.global.all_p j).ready ≡ 0 = before.readies x ∙ ap in_ready lies in
      let one_sleep : count x (r.global.all_p j).sleeping ≡ 1 =
        before.sleepers x ∙ ap in_sleep lies in
      moved i j x Place.queued (live (roused w)) place r t before (record {
        own = own ∙ before.own;
        bound = ap (λ (f : ℕ → Sched). (f i).p) scheds ∙ before.bound;
        fits = (roused w, refl, rw same home, ended ∙ rw same going, awake);
        heap = heap;
        ready = λ b.
            ap (λ (p : P). count b p.ready) ps
            ∙ count-last x b (r.global.all_p j).ready
            ∙ count_added x b (r.global.all_p j).ready no_ready;
        sleeping = λ b.
            ap (λ (p : P). count b p.sleeping) ps
            ∙ laws.removed x (r.global.all_p j).sleeping one_sleep b;
        current = λ b.
            ap (λ (f : ℕ → Sched). here b (f i).cur_uthread) scheds
            ∙ case_same (λ y. here y (r.global.all_sched i).cur_uthread) x b 0
                (before.current x ∙ ap in_run lies);
        waiting = no-Waits refl (λ b.
            ap (λ (p : P). count b p.waiting) ps
            ∙ count_absent x b (r.global.all_p j).waiting no_wait);
        joins = λ u y is link. (w, alive, ap (λ (q : Cell). joined_of q) is ∙ link);
        held = λ b u stood link. let wrong = alone b u stood link in cc;
      })
