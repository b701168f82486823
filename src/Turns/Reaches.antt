-- ===== src/Turns/Reaches.antt =====
-- What stands in every state that the runtime with one p reaches.
use uthread.Base.{true, ℕ, ◌+◌, ◌≡◌, ◌∙◌, some, false, if◌then◌else◌, count}
use mathlib.Core.Path.{ap, subst}
use uthread.Status.{has}
use uthread.Status.St
use uthread.Types.{Ptr, Uthread}
use uthread.Machine.{Rt, Cell, live, Env}
use uthread.Resume.Leave.{Mutex}
use uthread.Turns.{Place, in_ready, in_sleep, in_run, Fits, is_live, here, Represents}
use uthread.Turns.Trees.{RbLaws}
use uthread.Turns.Move.{Move}
use uthread.Turns.Step.{lost, Step}
use uthread.Turns.Refines.{Step-refines}

-- A uthread that is not gone is in one place, and its block is alive.
in_one_place :
    (j : ℕ) (p : Place) (c : Cell)
    → Fits j p c
    → in_ready p + in_sleep p + in_run p ≡ (if is_live c then 1 else 0)
in_one_place j Place.gone c dead = rw dead
in_one_place j Place.queued c (u, is, _, _, _) = rw is
in_one_place j Place.running c (u, is, _, _, _) = rw is
in_one_place j Place.asleep c (u, is, _, _, _) = rw is

-- A live block is of a uthread that goes on, of p `j`, and its status says whether it sleeps.
status_of_place :
    (j : ℕ) (p : Place) (u : Uthread)
    → Fits j p (live u)
    → (has u.status St.exited ≡ false)
      × (u.p ≡ some j)
      × (in_sleep p ≡ (if has u.status St.sleeping then 1 else 0))
status_of_place j Place.gone u dead = cc
status_of_place j Place.queued u (v, is, home, going, awake) =
    let same : u ≡ v = cc in rw same (going, home, rw awake)
status_of_place j Place.running u (v, is, home, going, awake) =
    let same : u ≡ v = cc in rw same (going, home, rw awake)
status_of_place j Place.asleep u (v, is, home, going, sleeps) =
    let same : u ≡ v = cc in rw same (going, home, rw sleeps)

module _ ⦃e : Env⦄ where
  -- one step after another
  pub data Reach (i j : ℕ) (s : Rt) : Rt → Type 0 where
    begins : Reach i j s s
    goes_on : {t r : Rt} → Reach i j s t → Step i j t r → Reach i j s r

  -- the creations that failed after they were counted: `f` before the steps, and those of the steps
  abbrev pub failures : {i j : ℕ} {s t : Rt} → Reach i j s t → ℕ → ℕ
  failures begins f = f
  failures (goes_on reached step) f = lost step (failures reached f)

-- one move after another
pub data Moves (p : Ptr → Place) : (Ptr → Place) → Type 0 where
  still : Moves p p
  further : {q r : Ptr → Place} → Moves p q → Move q r → Moves p r

module _ ⦃e : Env⦄ (laws : RbLaws e) (mutex : Mutex e) where
  -- Over a lawful search tree and a mutex that works: what the runtime with one p does, step after step,
  -- is a sequence of moves of where its uthreads are.
  pub Reach-refines :
      (i j : ℕ) (place : Ptr → Place) (s t : Rt)
      → Represents i j place s
      → Reach i j s t
      → (q : Ptr → Place) × Moves place q × Represents i j q t
  Reach-refines i j place s t before begins = (place, still, before)
  Reach-refines i j place s t before (goes_on {t = m} reached step) =
      let (p, moves, there) = Reach-refines i j place s m before reached in
      let (q, move, after, _, _) = Step-refines laws mutex i j p m t there step in
      (q, further moves move, after)

  -- Over a lawful search tree and a mutex that works, in every state that the runtime with one p reaches:
  -- a uthread whose block is alive is in exactly one of the ready queue, the sleeping tree and the
  -- scheduler's hands, and there once; one whose block is not is in none.
  pub Reach-in_one_place :
      (i j : ℕ) (place : Ptr → Place) (s t : Rt) (a : Ptr)
      → Represents i j place s
      → Reach i j s t
      → count a (t.global.all_p j).ready
          + count a (t.global.all_p j).sleeping
          + here a (t.global.all_sched i).cur_uthread
        ≡ (if is_live (t.heap a) then 1 else 0)
  Reach-in_one_place i j place s t a before reached =
      let (q, _, after) = Reach-refines i j place s t before reached in
      rw (after.readies a, after.sleepers a, after.current a)
        (in_one_place j (q a) (t.heap a) (after.cells a))

  -- Over a lawful search tree and a mutex that works, in every state that the runtime with one p reaches:
  -- no live block is of a uthread that has ended, each belongs to the p, and a uthread is in the sleeping
  -- tree exactly if its status says that it sleeps.
  pub Reach-status :
      (i j : ℕ) (place : Ptr → Place) (s t : Rt) (a : Ptr) (u : Uthread)
      → Represents i j place s
      → Reach i j s t
      → t.heap a ≡ live u
      → (has u.status St.exited ≡ false)
        × (u.p ≡ some j)
        × (count a (t.global.all_p j).sleeping ≡ (if has u.status St.sleeping then 1 else 0))
  Reach-status i j place s t a u before reached alive =
      let (q, _, after) = Reach-refines i j place s t before reached in
      let (going, home, sleeps) =
        status_of_place j (q a) u (subst (Fits j (q a)) alive (after.cells a)) in
      (going, home, after.sleepers a ∙ sleeps)

  -- Over a lawful search tree and a mutex that works, in every state that the runtime with one p reaches:
  -- a uthread that a live block names as the one that joined it has a live block, has not ended, is
  -- marked as sleeping, belongs to the p, is in its sleeping tree once, and neither in its ready queue nor
  -- in its waiting tree.
  pub Reach-joiner :
      (i j : ℕ) (place : Ptr → Place) (s t : Rt) (a b : Ptr) (u : Uthread)
      → Represents i j place s
      → Reach i j s t
      → t.heap b ≡ live u
      → u.ut_joined ≡ some a
      → (v : Uthread) × (t.heap a ≡ live v)
        × (has v.status St.exited ≡ false)
        × (has v.status St.sleeping ≡ true)
        × (v.p ≡ some j)
        × (count a (t.global.all_p j).sleeping ≡ 1)
        × (count a (t.global.all_p j).ready ≡ 0)
        × (count a (t.global.all_p j).waiting ≡ 0)
  Reach-joiner i j place s t a b u before reached alive link =
      let (q, _, after) = Reach-refines i j place s t before reached in
      let (lies, no_wait) = after.joiners b a u alive link in
      let (v, is, home, going, sleeps) = rw lies at (after.cells a) in
      (
        v,
        is,
        going,
        sleeps,
        home,
        after.sleepers a ∙ ap in_sleep lies,
        after.readies a ∙ ap in_ready lies,
        no_wait,
      )
