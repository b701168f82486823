-- ===== src/Turns/Asleep.antt =====
-- A uthread that has gone to sleep is in its tree, and nowhere else.
use uthread.Base.{
  ℕ, ◌≡◌, refl, ap, ◌∙◌, sym, some, false, List, ◌==◌, ==_refl, if◌then◌else◌, count, update, arith,
  Bool-cases, inl, inr,
}
use uthread.Status.{has}
use uthread.Status.St
use uthread.Status.Laws.{has-set_bit}
use uthread.Types.{Ptr, Uthread, P, Sched, GlobalData}
use uthread.Machine.{Rt, Cell, live, Env}
use uthread.Resume.Leave.{idle_sched}
use uthread.Turns.{Place, Represents}
use uthread.Turns.Facts.{Represents-running, running_alone, count_absent, here-cur, joined_of}
use uthread.Turns.Moved.{Waits, moved}
use uthread.Turns.Trees.{RbLaws}
use uthread.Turns.Sleep.{Slept, lying}

-- From `r`, in which `a` runs, to `s`, in which it is about to go to sleep.
pub record Ready (j : ℕ) (a : Ptr) (u : Uthread) (l : List Ptr) (r s : Rt) : Type 0 where
  pub own : s.tls ≡ r.tls
  pub heap : (b : Ptr) → s.heap b ≡ (if b == a then live u else r.heap b)
  pub scheds : s.global.all_sched ≡ r.global.all_sched
  pub tree : s.global.all_p j ≡ record (r.global.all_p j) { waiting = l }
  pub waiting : Waits j a Place.asleep (live u) r s
  pub number : s.global.n_uthread ≡ r.global.n_uthread
  pub home : u.p ≡ some j
  pub going : has u.status St.exited ≡ false
  pub joined : (x : Ptr) → u.ut_joined ≡ some x → joined_of (r.heap a) ≡ some x

module _ ⦃e : Env⦄ (laws : RbLaws e) where
  pub slept-Represents :
      (i j : ℕ) (place : Ptr → Place) (r s m : Rt) (a : Ptr) (u : Uthread) (l : List Ptr)
      → Represents i j place r
      → (r.global.all_sched i).cur_uthread ≡ some a
      → Ready j a u l r s
      → (k : Slept e j a u s m)
      → Represents i j (update place a Place.asleep) (record m {
        heap = update m.heap a (live (lying ⦃e = e⦄ k.block));
        global = idle_sched i m.global;
      })
  slept-Represents i j place r s m a u l before cur ready k =
      let (runs, (v, alive, _, _, _)) = Represents-running i j place r a before cur in
      let (no_ready, no_sleep, no_wait) = running_alone i j place r a before runs in
      let t : Rt = record m {
        heap = update m.heap a (live (lying ⦃e = e⦄ k.block));
        global = idle_sched i m.global;
      } in
      let ps : s.global.all_p j ≡ record (r.global.all_p j) { waiting = l } = ready.tree in
      let ins = (e.rb_insert k.order a (s.global.all_p j).sleeping).0 in
      let pt : t.global.all_p j ≡ record (s.global.all_p j) { sleeping = ins } =
        ap (λ (g : GlobalData). g.all_p j) k.global ∙ rw (==_refl j) in
      let sleeping_is : (s.global.all_p j).sleeping ≡ (r.global.all_p j).sleeping =
        ap (λ (q : P). q.sleeping) ps in
      let scheds : m.global.all_sched ≡ r.global.all_sched =
        ap (λ (g : GlobalData). g.all_sched) k.global ∙ ready.scheds in
      let waiting_is : (t.global.all_p j).waiting ≡ l =
        ap (λ (q : P). q.waiting) pt ∙ ap (λ (q : P). q.waiting) ps in
      let new_sleeper : count a (s.global.all_p j).sleeping ≡ 0 =
        ap (count a) sleeping_is ∙ no_sleep in
      moved i j a Place.asleep (live (lying ⦃e = e⦄ k.block)) place r t before (record {
        own = k.own ∙ ready.own ∙ before.own;
        bound = rw (==_refl i) (ap (λ (f : ℕ → Sched). (f i).p) scheds ∙ before.bound);
        fits = (
          lying ⦃e = e⦄ k.block,
          refl,
          k.home ∙ ready.home,
          ap (λ n. has n St.exited) k.status ∙ has-set_bit u.status 3 2 ∙ ready.going,
          ap (λ n. has n St.sleeping) k.status ∙ has-set_bit u.status 3 3,
        );
        heap = λ b. elim (Bool-cases (b == a)) [
          | inl hit ↦ rw hit
          | inr miss ↦ rw miss (rw miss at (k.heap b) ∙ rw miss at (ready.heap b))
        ];
        ready = λ b.
            ap (λ (q : P). count b q.ready) pt
            ∙ ap (λ (q : P). count b q.ready) ps
            ∙ count_absent a b (r.global.all_p j).ready no_ready;
        sleeping = λ b.
            ap (λ (q : P). count b q.sleeping) pt
            ∙ laws.inserted k.order a (s.global.all_p j).sleeping new_sleeper k.new b
            ∙ ap (λ q. if b == a then 1 else count b q) sleeping_is;
        current = λ b.
            rw (==_refl i) (ground (arith, here-cur a b (r.global.all_sched i).cur_uthread cur));
        waiting = record {
          now = ready.waiting.now;
          few = ready.waiting.few;
          counts = λ b.
              ap (count b) waiting_is
              ∙ sym (ap (λ (q : P). count b q.waiting) ps)
              ∙ ready.waiting.counts b;
          key = λ n lies is. ready.waiting.key n lies (sym k.key ∙ is);
          lone = λ b apart one two same. ready.waiting.lone b apart one two (sym k.key ∙ same);
        };
        joins = λ w x is link. (
          v,
          alive,
          sym (ap (λ (q : Cell). joined_of q) alive)
              ∙ ready.joined x (sym k.joined ∙ ap (λ (q : Cell). joined_of q) is ∙ link),
        );
        held = λ b w stood link. let (sleeps, free) = before.joiners b a w stood link in cc;
      })
