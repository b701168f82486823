-- ===== src/Loop/Round.antt =====
-- uthread_sched.c: one pass of a scheduler over its ready queue.
use uthread.Base.{ℕ, ◌<◌, ◌≡◌, ap, none, some, true, false, List, [], ◌∷◌, update}
use uthread.Types.{Ptr}
use uthread.Machine.{Rt, ok, Cell, Env}
use uthread.Resume.Enter.{IsRunnable, Malloc, YieldsBack}
use uthread.Loop.{has_p}

-- every uthread of the list is runnable
abbrev pub AllRunnable : (Ptr → Cell) → List Ptr → Type 0
AllRunnable h [] = Unit
AllRunnable h (a ∷ rest) = IsRunnable h a × AllRunnable h rest

-- p `j` without the first of its ready queue
abbrev popped : ℕ → List Ptr → Rt → Rt
popped j rest s = record s {
  global = record (s.global) {
    all_p = update s.global.all_p j (record (s.global.all_p j) { ready = rest });
  };
}

pub has_p_lem : (i : ℕ) {j : ℕ} (s : Rt) → (s.global.all_sched i).p ≡ some j → has_p i s ≡ ok true s
unfolding has_p
has_p_lem i s h = ap (λ o. ok (elim o [ none ↦ false | some _ ↦ true ]) s) h

module _ ⦃e : Env⦄ (malloc : Malloc e) (yields_back : YieldsBack e) (i j : ℕ) where
  -- what is known of the state between two uthreads of a pass
  record Turn (s : Rt) (queue : List Ptr) : Type 0 where
    own : s.tls ≡ some i
    bound : (s.global.all_sched i).p ≡ some j
    ready : (s.global.all_p j).ready ≡ queue
    wheel : s.timer.current < 10
