-- ===== src/Turns/Runs.antt =====
-- The scheduler takes a uthread from where it is and runs it: the first of the ready queue, or one
-- whose descriptor is ready.
use uthread.Base.{
  ℕ, ◌+◌, ◌<◌, ◌≡◌, refl, ap, ◌∙◌, sym, none, some, true, false, List, ◌∷◌, ◌==◌, ==_refl,
  if◌then◌else◌, count, update, arith, Bool-cases, inl, inr,
}
use uthread.Status.{has}
use uthread.Status.St
use uthread.Types.{Ptr, Uthread, P, Sched, GlobalData}
use uthread.Machine.{M, Rt, ok, Cell, live, Env, set_p, ◌>>◌}
use uthread.Resume.{resume_enter}
use uthread.Turns.{Place, queued, in_ready, in_sleep, Represents, here}
use uthread.Turns.Facts.{count_absent, joined_of}
use uthread.Turns.Moved.{no-Waits, moved}
use uthread.Turns.Enter.{Entered, resume_enter_lem}
use uthread.Turns.Waits.{heap_case}

-- From `r` to `s` the uthread `a`, which nothing runs, leaves its queue and its trees.
pub record Picked (i j : ℕ) (a : Ptr) (u : Uthread) (r s : Rt) : Type 0 where
  pub own : s.tls ≡ r.tls
  pub idle : (r.global.all_sched i).cur_uthread ≡ none
  pub scheds : s.global.all_sched ≡ r.global.all_sched
  pub heap : (b : Ptr) → s.heap b ≡ (if b == a then live u else r.heap b)
  pub ready :
      (b : Ptr)
      → count b (s.global.all_p j).ready ≡ (if b == a then 0 else count b (r.global.all_p j).ready)
  pub sleeping :
      (b : Ptr)
      → count b (s.global.all_p j).sleeping
        ≡ (if b == a then 0 else count b (r.global.all_p j).sleeping)
  pub waiting :
      (b : Ptr)
      → count b (s.global.all_p j).waiting
        ≡ (if b == a then 0 else count b (r.global.all_p j).waiting)
  pub home : u.p ≡ some j
  pub going : has u.status St.exited ≡ false
  pub awake : has u.status St.sleeping ≡ false
  pub joined : (x : Ptr) → u.ut_joined ≡ some x → joined_of (r.heap a) ≡ some x
  pub block : (v : Uthread) × (r.heap a ≡ live v)
  pub unheld : (b : Ptr) (w : Uthread) → r.heap b ≡ live w → w.ut_joined ≡ some a → false ≡ true

pub Entered-Represents :
    (i j : ℕ) (place : Ptr → Place) (r s t : Rt) (a : Ptr) (u : Uthread)
    → Represents i j place r
    → Picked i j a u r s
    → Entered i a u s t
    → Represents i j (update place a Place.running) t
Entered-Represents i j place r s t a u before picked k =
    let ps : t.global.all_p ≡ s.global.all_p = ap (λ (g : GlobalData). g.all_p) k.global in
    let sched : t.global.all_sched i ≡ record (s.global.all_sched i) { cur_uthread = some a } =
      ap (λ (g : GlobalData). g.all_sched i) k.global ∙ rw (==_refl i) in
    let (v, alive) = picked.block in
    moved i j a Place.running (live k.block) place r t before (record {
      own = k.own ∙ picked.own ∙ before.own;
      bound =
          ap (λ (c : Sched). c.p) sched
          ∙ ap (λ (f : ℕ → Sched). (f i).p) picked.scheds
          ∙ before.bound;
      fits = (k.block, refl, k.home ∙ picked.home, k.going picked.going, k.awake picked.awake);
      heap = λ b. elim (Bool-cases (b == a)) [
        | inl hit ↦ rw hit (k.heap b ∙ rw hit)
        | inr miss ↦ rw miss (k.heap b ∙ rw miss (picked.heap b ∙ rw miss))
      ];
      ready = λ b. ap (λ (f : ℕ → P). count b (f j).ready) ps ∙ picked.ready b;
      sleeping = λ b. ap (λ (f : ℕ → P). count b (f j).sleeping) ps ∙ picked.sleeping b;
      current = λ b.
          ap (λ (c : Sched). here b c.cur_uthread) sched ∙ ground (arith, ap (here b) picked.idle);
      waiting =
          no-Waits refl (λ b. ap (λ (f : ℕ → P). count b (f j).waiting) ps ∙ picked.waiting b);
      joins = λ w x is link. (
        v,
        alive,
        sym (ap (λ (q : Cell). joined_of q) alive)
            ∙ picked.joined x (sym k.joined ∙ ap (λ (q : Cell). joined_of q) is ∙ link),
      );
      held = λ b w stood link. let wrong = picked.unheld b w stood link in cc;
    })

count-popped :
    (a b : Ptr) (rest l : List Ptr)
    → l ≡ a ∷ rest
    → count a rest ≡ 0
    → count b rest ≡ (if b == a then 0 else count b l)
count-popped a b rest l first last = elim (Bool-cases (b == a)) [
  | inl hit ↦ let is : b ≡ a = ground arith in rw (hit, is) last
  | inr miss ↦
      let other : (a == b) ≡ false = ground arith in
      rw miss (sym (ap (count b) first ∙ rw other (omega arith)))
]

in_ready-inv : (p : Place) → 0 < in_ready p → p ≡ queued
in_ready-inv Place.queued h = refl
in_ready-inv Place.gone h = absurd (omega arith)
in_ready-inv Place.running h = absurd (omega arith)
in_ready-inv Place.asleep h = absurd (omega arith)

module _ ⦃e : Env⦄ where
  -- the first of the ready queue of p `j` is resumed
  unfoldable pub turn_resume : ℕ → ℕ → Ptr → List Ptr → M (Unit {0})
  turn_resume i j a rest = do set_p j λ q. record q { ready = rest }; resume_enter i a

  pub turn_resume-Represents :
      (i j : ℕ) (place : Ptr → Place) (s t : Rt) (a : Ptr) (rest : List Ptr)
      → Represents i j place s
      → (s.global.all_sched i).cur_uthread ≡ none
      → (s.global.all_p j).ready ≡ a ∷ rest
      → turn_resume i j a rest s ≡ ok tt t
      → (place a ≡ queued) × Represents i j (update place a Place.running) t
  unfolding turn_resume
  turn_resume-Represents i j place s t a rest before idle first run =
      let all : 1 + count a rest ≡ in_ready (place a) =
        rw (first, ==_refl a) at (before.readies a) in
      let waits : place a ≡ queued = in_ready-inv (place a) (omega (arith, all)) in
      let last : count a rest ≡ 0 = omega (arith, all, ap in_ready waits) in
      let (u, alive, home, going, awake) = rw waits at (before.cells a) in
      let no_sleep : count a (s.global.all_p j).sleeping ≡ 0 =
        before.sleepers a ∙ ap in_sleep waits in
      let no_wait : count a (s.global.all_p j).waiting ≡ 0 =
        omega (arith, before.waiters a, ap in_sleep waits) in
      let popped : Rt = record s {
        global = record (s.global) {
          all_p = update s.global.all_p j (record (s.global.all_p j) { ready = rest });
        };
      } in
      let picked : Picked i j a u s popped = record {
        own = refl;
        idle = idle;
        scheds = refl;
        heap = λ b. heap_case a b s.heap u alive;
        ready = λ b. rw (==_refl j) (count-popped a b rest (s.global.all_p j).ready first last);
        sleeping = λ b. rw (==_refl j) (count_absent a b (s.global.all_p j).sleeping no_sleep);
        waiting = λ b. rw (==_refl j) (count_absent a b (s.global.all_p j).waiting no_wait);
        home = home;
        going = going;
        awake = awake;
        joined = λ x link. ap (λ (q : Cell). joined_of q) alive ∙ link;
        block = (u, alive);
        unheld = λ b w stood link. let (sleeps, _) = before.joiners b a w stood link in cc;
      } in
      (
        waits,
        Entered-Represents i j place s popped t a u before picked
            (resume_enter_lem i a popped t u alive run),
      )
