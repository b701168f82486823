-- ===== src/Turns/Facts.antt =====
-- What a represented state says of the running uthread, and counting in lists.
use uthread.Base.{
  ◌<◌, ℕ, ◌+◌, ◌≡◌, refl, ap, ◌∙◌, sym, Option, none, some, false, List, ◌∷◌, [], ◌++◌, ◌==◌,
  ==_refl, if◌then◌else◌, count, arith, Bool-cases, inl, inr,
}
use uthread.Types.{Ptr}
use uthread.Machine.{Rt, Cell, absent, live, freed}
use uthread.Turns.{Place, running, in_run, in_ready, in_sleep, here, Alive, Represents}

in_run-inv : (p : Place) → in_run p ≡ 1 → p ≡ running
in_run-inv Place.running h = refl
in_run-inv Place.gone h = cc
in_run-inv Place.queued h = cc
in_run-inv Place.asleep h = cc

-- what is known of the running uthread
pub Represents-running :
    (i j : ℕ) (place : Ptr → Place) (s : Rt) (a : Ptr)
    → Represents i j place s
    → (s.global.all_sched i).cur_uthread ≡ some a
    → (place a ≡ running) × Alive j false (s.heap a)
Represents-running i j place s a before cur =
    let runs : place a ≡ running =
      in_run-inv (place a) (sym (before.current a) ∙ ap (here a) cur ∙ rw (==_refl a)) in
    (runs, rw runs at (before.cells a))

-- a running uthread is in no queue and no tree
pub running_alone :
    (i j : ℕ) (place : Ptr → Place) (s : Rt) (a : Ptr)
    → Represents i j place s
    → place a ≡ running
    → (count a (s.global.all_p j).ready ≡ 0)
      × (count a (s.global.all_p j).sleeping ≡ 0)
      × (count a (s.global.all_p j).waiting ≡ 0)
running_alone i j place s a before runs = (
  before.readies a ∙ ap in_ready runs,
  before.sleepers a ∙ ap in_sleep runs,
  omega (arith, before.waiters a, ap in_sleep runs),
)

-- what a list without `a` counts, with a case for `a`
pub count_absent :
    (a b : Ptr) (l : List Ptr) → count a l ≡ 0 → count b l ≡ (if b == a then 0 else count b l)
count_absent a b l h = elim (Bool-cases (b == a)) [
  | inl hit ↦ let is : b ≡ a = ground arith in rw (hit, is) h
  | inr miss ↦ rw miss
]

pub count_added :
    (a b : Ptr) (l : List Ptr)
    → count a l ≡ 0
    → (if b == a then 1 else 0) + count b l ≡ (if b == a then 1 else count b l)
count_added a b l h = elim (Bool-cases (b == a)) [
  | inl hit ↦ let is : b ≡ a = ground arith in rw (hit, is, h)
  | inr miss ↦ rw miss (omega arith)
]

-- While `a` runs, only `a` does.
pub here-cur : (a b : Ptr) (o : Option Ptr) → o ≡ some a → here b o ≡ (if b == a then 1 else 0)
here-cur a b o h = rw h (ground arith)

pub count-last :
    (a b : Ptr) (l : List Ptr) → count b (l ++ (a ∷ [])) ≡ (if b == a then 1 else 0) + count b l
count-last a b [] = ground arith
count-last a b (x ∷ l) = ground (arith, count-last a b l)

-- the uthread that joined the one in a block
abbrev pub joined_of : Cell → Option Ptr
joined_of (live u) = u.ut_joined
joined_of absent = none
joined_of (freed u) = none

pub in_sleep-inv : (p : Place) → 0 < in_sleep p → p ≡ Place.asleep
in_sleep-inv Place.asleep h = refl
in_sleep-inv Place.gone h = absurd (omega arith)
in_sleep-inv Place.running h = absurd (omega arith)
in_sleep-inv Place.queued h = absurd (omega arith)
