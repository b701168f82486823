-- ===== src/Turns/Move.antt =====
-- Where uthreads may go: the moves of the machine of places.
use uthread.Base.{ℕ, ◌+◌, ◌≡◌, Option, none, some, update}
use uthread.Types.{Ptr}
use uthread.Turns.{one_more, one_less, Place, gone, queued, running, asleep, in_run}

-- where the uthreads may go in one step
pub data Move (p q : Ptr → Place) : Type 0 where
  -- nobody runs, and a ready uthread does
  resumed :
      (a : Ptr)
      → ((b : Ptr) → in_run (p b) ≡ 0)
      → p a ≡ queued
      → q ≡ update p a Place.running
      → Move p q
  -- nobody runs, and a sleeper does
  roused :
      (a : Ptr)
      → ((b : Ptr) → in_run (p b) ≡ 0)
      → p a ≡ asleep
      → q ≡ update p a Place.running
      → Move p q
  yielded : (a : Ptr) → p a ≡ running → q ≡ update p a Place.queued → Move p q
  slept : (a : Ptr) → p a ≡ running → q ≡ update p a Place.asleep → Move p q
  ended : (a : Ptr) → p a ≡ running → q ≡ update p a Place.gone → Move p q
  -- the running uthread ends, and a sleeper becomes ready
  ended_waking :
      (a x : Ptr)
      → p a ≡ running
      → p x ≡ asleep
      → q ≡ update (update p x Place.queued) a Place.gone
      → Move p q
  created : (a : Ptr) → p a ≡ gone → q ≡ update p a Place.queued → Move p q
  -- a uthread could not be created
  failed : (a : Ptr) → p a ≡ gone → q ≡ update p a Place.gone → Move p q
  stayed : q ≡ p → Move p q

-- what a move makes of the number of the uthreads
abbrev pub counts : {p q : Ptr → Place} → Move p q → ℕ → ℕ
counts (resumed a idle from to) n = n
counts (roused a idle from to) n = n
counts (yielded a from to) n = n
counts (slept a from to) n = n
counts (ended a from to) n = one_less n
counts (ended_waking a x from sleeps to) n = one_less n
counts (created a from to) n = one_more n
counts (failed a from to) n = one_more n
counts (stayed same) n = n

-- what a move makes of the number of the creations that failed after they were counted
abbrev pub fails : {p q : Ptr → Place} → Move p q → ℕ → ℕ
fails (resumed a idle from to) f = f
fails (roused a idle from to) f = f
fails (yielded a from to) f = f
fails (slept a from to) f = f
fails (ended a from to) f = f
fails (ended_waking a x from sleeps to) f = f
fails (created a from to) f = f
fails (failed a from to) f = f + 1
fails (stayed same) f = f

-- A uthread that ends wakes the one that joined it, `link` of it, and wakes none only if there is none.
abbrev pub Heeds : {p q : Ptr → Place} → Move p q → (Ptr → Option Ptr) → Type 0
Heeds (resumed a idle from to) link = Unit
Heeds (roused a idle from to) link = Unit
Heeds (yielded a from to) link = Unit
Heeds (slept a from to) link = Unit
Heeds (ended a from to) link = link a ≡ none
Heeds (ended_waking a x from sleeps to) link = link a ≡ some x
Heeds (created a from to) link = Unit
Heeds (failed a from to) link = Unit
Heeds (stayed same) link = Unit
