-- ===== src/Turns/Begins.antt =====
-- The runtime begins: from `_runtime_init` on, the turns.
use uthread.Turns.Tally.{Tally, Reach-Tally}
use mathlib.Core.Path.{subst}
use uthread.Base.{List, [], count, ◌≡◌, ap, ◌∙◌, sym, none, false, arith}
use uthread.Types.{Ptr}
use uthread.Machine.{Rt, ok, Env}
use uthread.Create.{runtime_init}
use uthread.Create.Started.{Allocates}
use uthread.Create.Bound.{runtime_init-made}
use uthread.Resume.Leave.{Mutex}
use uthread.Turns.{in_sleep, Place, is_live, here, Represents}
use uthread.Turns.Trees.{RbLaws}
use uthread.Turns.Reaches.{failures, Reach, Moves, Reach-refines}

abbrev pub nobody : Ptr → Place
nobody a = Place.gone

module _ ⦃e : Env⦄ (allocates : Allocates e) where
  pub runtime_init-Represents :
      (s : Rt)
      → ((a : Ptr) → is_live (s.heap a) ≡ false)
      → (s.global.all_sched 0).cur_uthread ≡ none
      → (r : Rt) × (runtime_init s ≡ ok 0 r)
        × Represents 0 0 nobody r
        × ((a : Ptr) → is_live (r.heap a) ≡ false)
        × (r.global.n_uthread ≡ s.global.n_uthread)
  runtime_init-Represents s empty idle =
      let (r, done, own, bound, _, _, _, queues, _, _, heap, current, number) =
        runtime_init-made allocates s in
      let (ready, sleeping, waiting) = queues 0 (omega arith) in
      let dead : (a : Ptr) → is_live (r.heap a) ≡ false = rw heap empty in
      (
        r,
        done,
        record {
          own = own;
          bound = bound;
          cells = dead;
          readies = λ a. rw ready;
          sleepers = λ a. rw sleeping;
          current = λ a. ap (here a) (current ∙ idle);
          waiters = λ a. rw waiting (omega arith);
          joiners = λ b a u alive link. let wrong = sym (ap is_live alive) ∙ dead b in cc;
          once = λ b c a u v alive _ _ _. let wrong = sym (ap is_live alive) ∙ dead b in cc;
          keyed = λ a k lies is. absurd (omega (arith, ap in_sleep lies));
          sole = λ a b one two same.
              let none_waits : count a (r.global.all_p 0).waiting ≡ 0 = ap (count a) waiting in
              absurd (omega (arith, one, none_waits));
        },
        dead,
        number,
      )

module _ ⦃e : Env⦄ (laws : RbLaws e) (mutex : Mutex e) (allocates : Allocates e) where
  -- Over a lawful search tree, a mutex that works and memory that suffices: what the runtime does after
  -- a `_runtime_init` that began without uthreads, counted none, and returned 0, turn after turn, is a
  -- sequence of moves of the places, from the one where nobody is, and n_uthread is, modulo 2 ^ 32, the
  -- number of the live uthreads and of the turns among these in which a creation failed after it was
  -- counted.
  pub runtime_init-refines :
      (s r t : Rt)
      → ((a : Ptr) → is_live (s.heap a) ≡ false)
      → (s.global.all_sched 0).cur_uthread ≡ none
      → s.global.n_uthread ≡ 0
      → runtime_init s ≡ ok 0 r
      → (reached : Reach 0 0 r t)
      → ((q : Ptr → Place) × Moves nobody q × Represents 0 0 q t)
        × ((now : List Ptr) × Tally t now (failures reached 0))
  runtime_init-refines s r t empty idle zero_counted ran reached =
      let (m, done, begun, dead, number) = runtime_init-Represents allocates s empty idle in
      let same : m ≡ r = cc in
      let start : Represents 0 0 nobody r = subst (Represents 0 0 nobody) same begun in
      let counted : Tally r [] 0 =
        subst (λ (x : Rt). Tally x [] 0) same ((λ b. rw (dead b)), number ∙ zero_counted) in
      (
        Reach-refines laws mutex 0 0 nobody r t start reached,
        Reach-Tally laws mutex 0 0 nobody r t [] 0 start counted reached,
      )
