-- ===== src/Turns/Found.antt =====
-- A sleeper that was taken off the trees of its p runs: for an event, or since its time is up.
use mathlib.Core.Path.{subst}
use uthread.Base.{
  ℕ, ◌<◌, ◌≡◌, ap, ◌∙◌, sym, none, some, false, ◌==◌, ==_refl, count, update, arith, Bool-cases,
  inl, inr,
}
use uthread.Status.{has}
use uthread.Status.St
use uthread.Types.{Ptr, Uthread, P, GlobalData}
use uthread.Machine.{Rt, ok, Cell, live, Env}
use uthread.Event.{drop_waiting}
use uthread.Resume.{resume_enter}
use uthread.Turns.{Place, asleep, in_ready, in_sleep, Fits, Represents}
use uthread.Turns.Facts.{in_sleep-inv, count_absent, joined_of}
use uthread.Turns.Trees.{RbLaws}
use uthread.Turns.Enter.{resume_enter_lem}
use uthread.Turns.Marks.{Marks, Marks-live}
use uthread.Turns.Runs.{Picked, Entered-Represents}
use uthread.Turns.Dropped.{roused, roused_status, untreed, drop_waiting_facts}

module _ ⦃e : Env⦄ (laws : RbLaws e) where
  -- From `s` a waiting uthread is taken off the trees, its block is marked, and it runs.
  pub found_runs :
      (i j : ℕ) (place : Ptr → Place) (s d f t : Rt) (a : Ptr)
      → Represents i j place s
      → (s.global.all_sched i).cur_uthread ≡ none
      → 0 < count a (s.global.all_p j).waiting
      → drop_waiting j (some a) s ≡ ok tt d
      → ((w : Uthread)
          → d.heap a ≡ live w
          → w.p ≡ some j
          → has w.status St.sleeping ≡ false
          → Marks a w d f)
      → resume_enter i a f ≡ ok tt t
      → (place a ≡ asleep) × Represents i j (update place a Place.running) t
  found_runs i j place s d0 f t a before idle member run marks entered =
      let l = (s.global.all_p j).waiting in
      let lies : place a ≡ asleep =
        in_sleep-inv (place a) (omega (arith, before.waiters a, member)) in
      let (u, alive, home, going, sleeps) =
        subst (λ (p : Place). Fits j p (s.heap a)) lies (before.cells a) in
      let (heap, own, scheds, trees) = drop_waiting_facts laws j a s d0 u alive sleeps home run in
      let (ended, awake) = roused_status u in
      let there : d0.heap a ≡ live (roused u) = heap a ∙ rw (==_refl a) in
      let m = marks (roused u) there home awake in
      let one_sleep : count a (s.global.all_p j).sleeping ≡ 1 =
        before.sleepers a ∙ ap in_sleep lies in
      let one_wait : count a l ≡ 1 = omega (arith, member, before.waiters a, ap in_sleep lies) in
      let no_ready : count a (s.global.all_p j).ready ≡ 0 = before.readies a ∙ ap in_ready lies in
      let pf : f.global.all_p j ≡ untreed laws a (s.global.all_p j) =
        ap (λ (g : GlobalData). g.all_p j) m.global ∙ trees in
      let picked : Picked i j a m.block s f = record {
        own = m.own ∙ own;
        idle = idle;
        scheds = ap (λ (g : GlobalData). g.all_sched) m.global ∙ scheds;
        heap = λ b. elim (Bool-cases (b == a)) [
          | inl hit ↦ rw hit (m.heap b ∙ rw hit)
          | inr miss ↦ rw miss (m.heap b ∙ rw miss (heap b ∙ rw miss))
        ];
        ready = λ b.
            ap (λ (p : P). count b p.ready) pf ∙ count_absent a b (s.global.all_p j).ready no_ready;
        sleeping = λ b.
            ap (λ (p : P). count b p.sleeping) pf
            ∙ laws.removed a (s.global.all_p j).sleeping one_sleep b;
        waiting = λ b. ap (λ (p : P). count b p.waiting) pf ∙ laws.removed a l one_wait b;
        home = m.home ∙ home;
        going = m.ended ∙ ended ∙ going;
        awake = m.sleeps ∙ awake;
        joined = λ x link. ap (λ (q : Cell). joined_of q) alive ∙ sym m.joined ∙ link;
        block = (u, alive);
        unheld = λ b w stood link.
            let (_, free) = before.joiners b a w stood link in absurd (omega (arith, member, free));
      } in
      (
        lies,
        Entered-Represents i j place s f t a m.block before picked
            (resume_enter_lem i a f t m.block (Marks-live a (roused u) d0 f m) entered),
      )
