-- ===== src/Turns.antt =====
-- The runtime with one p, as a machine. Its states are those of the running program; each of its
-- steps is the code of uthread.c and uthread_sched.c that runs between two switches, on the thread of
-- the scheduler `i`. Against it stands where each uthread is.
pub mod Acts
pub mod Asleep
pub mod Begins
pub mod Cancel
pub mod Creates
pub mod Dropped
pub mod Ending
pub mod Enter
pub mod Events
pub mod Exits
pub mod Expires
pub mod Expiring
pub mod Facts
pub mod Found
pub mod Gone
pub mod Guest
pub mod Joins
pub mod Keys
pub mod Links
pub mod Loops
pub mod Main
pub mod Marks
pub mod Moved
pub mod Number
pub mod Touch
pub mod Trees
pub mod Waits
pub mod Yield
pub mod Polls
pub mod Program
pub mod Runs
pub mod Reaches
pub mod Returns
pub mod Round
pub mod Rounds
pub mod Refines
pub mod Sleep
pub mod Move
pub mod Step
pub mod Tally
use uthread.Base.{
  ◌+◌, ◌-◌, ◌%◌, ◌^◌, ◌<◌, minus_one, pos, ℤ, ℕ, ◌≡◌, ◌≤◌, Option, none, some, Bool, true, false,
  List, ◌==◌, if◌then◌else◌, count,
}
use uthread.Status.{has}
use uthread.Status.St
use uthread.Types.{Ptr, Uthread}
use uthread.Machine.{Rt, Cell, absent, live, freed}

-- where a uthread is
pub data Place : Type 0 where
  gone queued running asleep : Place

abbrev pub in_ready : Place → ℕ
in_ready queued = 1
in_ready gone = 0
in_ready running = 0
in_ready asleep = 0

abbrev pub in_sleep : Place → ℕ
in_sleep asleep = 1
in_sleep gone = 0
in_sleep queued = 0
in_sleep running = 0

abbrev pub in_run : Place → ℕ
in_run running = 1
in_run gone = 0
in_run queued = 0
in_run asleep = 0

abbrev pub is_live : Cell → Bool
is_live (live u) = true
is_live absent = false
is_live (freed u) = false

-- A block that belongs to p `j`, of a uthread that has not ended.
abbrev pub Alive : ℕ → Bool → Cell → Type 0
Alive j sleeps c =
    (u : Uthread) × (c ≡ live u)
    × (u.p ≡ some j)
    × (has u.status St.exited ≡ false)
    × (has u.status St.sleeping ≡ sleeps)

abbrev pub Fits : ℕ → Place → Cell → Type 0
Fits j gone c = is_live c ≡ false
Fits j queued c = Alive j false c
Fits j running c = Alive j false c
Fits j asleep c = Alive j true c

-- whether the scheduler runs `a`
abbrev pub here : Ptr → Option Ptr → ℕ
here a none = 0
here a (some b) = if b == a then 1 else 0

-- the descriptor and the event for which the uthread of a block waits, or -1
abbrev pub waits_for : Cell → ℤ
waits_for (live u) = u.fd_wait
waits_for absent = minus_one
waits_for (freed u) = minus_one

-- Each uthread is where `place` says, and only there: a uthread that is ready stands once in the ready
-- queue of p `j`, one that sleeps once in its sleeping tree, one that runs is the scheduler's current
-- one, and no block of a uthread that is gone is alive. Only sleepers are in the waiting tree. A
-- uthread that joined another one sleeps, waits for no descriptor, and joined no third one. A sleeper
-- that waits for a descriptor is in the waiting tree, in which no two wait for the same.
pub record Represents (i j : ℕ) (place : Ptr → Place) (s : Rt) : Type 0 where
  pub own : s.tls ≡ some i
  pub bound : (s.global.all_sched i).p ≡ some j
  pub cells : (a : Ptr) → Fits j (place a) (s.heap a)
  pub readies : (a : Ptr) → count a (s.global.all_p j).ready ≡ in_ready (place a)
  pub sleepers : (a : Ptr) → count a (s.global.all_p j).sleeping ≡ in_sleep (place a)
  pub current : (a : Ptr) → here a (s.global.all_sched i).cur_uthread ≡ in_run (place a)
  pub waiters : (a : Ptr) → count a (s.global.all_p j).waiting ≤ in_sleep (place a)
  pub joiners :
      (b a : Ptr) (u : Uthread)
      → s.heap b ≡ live u
      → u.ut_joined ≡ some a
      → (place a ≡ asleep) × (count a (s.global.all_p j).waiting ≡ 0)
  pub once :
      (b c a : Ptr) (u v : Uthread)
      → s.heap b ≡ live u
      → s.heap c ≡ live v
      → u.ut_joined ≡ some a
      → v.ut_joined ≡ some a
      → b ≡ c
  pub keyed :
      (a : Ptr) (k : ℕ)
      → place a ≡ asleep
      → waits_for (s.heap a) ≡ pos k
      → count a (s.global.all_p j).waiting ≡ 1
  pub sole :
      (a b : Ptr)
      → 0 < count a (s.global.all_p j).waiting
      → 0 < count b (s.global.all_p j).waiting
      → waits_for (s.heap a) ≡ waits_for (s.heap b)
      → a ≡ b

-- a count of 32 bits with one more, and with one less
abbrev pub one_more : ℕ → ℕ
one_more n = (n + 1) % 2 ^ 32

abbrev pub one_less : ℕ → ℕ
one_less n = (n + 2 ^ 32 - 1) % 2 ^ 32
