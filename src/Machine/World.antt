-- ===== src/Machine/World.antt =====
-- What the code relies on and this repository does not implement. Each answer may depend on the
-- whole history of calls.
use uthread.Base.{
  ℕ, Option, List, ◌∷◌, ℤ, pos, eqb_ℤ, minus_one, false, arith, if◌then◌else◌, ◌≡◌, ◌+◌, ◌*◌, ◌%◌,
  ◌^◌,
}
use uthread.Types.{Ptr, EpollEvent}
use uthread.Machine.Monad.{Rt, Call, M, ok}

-- the contexts between which `_switch` switches
pub data Ctx : Type 0 where
  of_ut : Ptr → Ctx
  of_sched : ℕ → Ctx

pub record Env : Type 0 where
  -- `switch new cur`: everything that runs until some context switches back to `cur`
  pub switch : Ctx → Ctx → M (Unit {0})
  -- the function that a uthread is to run, at its argument
  pub run_func : ℕ → ℕ → M (Unit {0})
  -- the result of a call, and the `errno` that goes with -1
  pub reply : List Call → Call → ℤ
  pub errno_of : List Call → Call → ℕ
  -- `gettimeofday`: seconds and microseconds
  pub clock : List Call → ℕ × ℕ
  -- the entries that `epoll_wait` writes
  pub events : List Call → List EpollEvent
  -- the addresses of code and of the members of `all_sched`
  pub exec_address : ℕ
  pub sched_run_address : ℕ
  pub sched_address : ℕ → ℕ
  -- the operations generated from tree.h; a comparison is less than, equal to or greater than 0
  pub rb_insert : (Ptr → Ptr → ℤ) → Ptr → List Ptr → List Ptr × Option Ptr
  pub rb_remove : Ptr → List Ptr → List Ptr
  pub rb_find : (Ptr → ℤ) → List Ptr → Option Ptr
  pub rb_min : List Ptr → Option Ptr

module _ ⦃e : Env⦄ where
  -- A call: its result, with `errno` set where that is -1.
  unfoldable pub syscall : Call → M ℤ
  syscall c s =
      let r = e.reply s.trace c in
      ok r (record s {
        errno = if eqb_ℤ r minus_one then e.errno_of s.trace c else s.errno;
        trace = c ∷ s.trace;
      })

  -- `_get_usec_now`
  unfoldable pub get_usec_now : M ℕ
  get_usec_now s =
      let (sec, usec) = e.clock s.trace in
      ok ((sec * 1000000 + usec) % 2 ^ 64) (record s { trace = Call.gettimeofday ∷ s.trace })

  -- a call that succeeds sets no `errno`
  pub syscall_pos :
      (c : Call) (n : ℕ) (s : Rt)
      → e.reply s.trace c ≡ pos n
      → syscall c s ≡ ok (pos n) (record s { trace = c ∷ s.trace })
  unfolding syscall
  syscall_pos c n s h = let fine : eqb_ℤ (pos n) minus_one ≡ false = ground arith in rw (h, fine)

  -- a call that returns 0
  pub syscall_zero :
      (c : Call) (s : Rt)
      → e.reply s.trace c ≡ pos 0
      → syscall c s ≡ ok (pos 0) (record s { trace = c ∷ s.trace })
  unfolding syscall
  syscall_zero c s h = rw h

  -- a call that fails
  pub syscall_fails :
      (c : Call) (s : Rt)
      → e.reply s.trace c ≡ minus_one
      → syscall c s ≡ ok minus_one (record s { errno = e.errno_of s.trace c; trace = c ∷ s.trace })
  unfolding syscall
  syscall_fails c s h = rw h
