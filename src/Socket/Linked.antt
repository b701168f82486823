-- ===== src/Socket/Linked.antt =====
-- The names that uthread_socket.c calls, and the state tests that its loops share.
use uthread.Base.{ℕ, Bool, List, ℤ, negsuc, eqb_ℤ, minus_one, ◌==◌, ◌&&◌}
use uthread.Status.{has}
use uthread.Types.{Ptr}
use uthread.Machine.{M, Rt, pure, ◌>>=◌, deref, load}
use uthread.Lifecycle.{cur_uthread}

-- Descriptor, address of the buffer, bytes; of a message only the descriptor; of a vector the
-- parts that are left, each an address and a length.
pub record Linked : Type 0 where
  pub read : ℤ → ℕ → ℕ → M ℤ
  pub recv : ℤ → ℕ → ℕ → M ℤ
  pub recvmsg : ℤ → M ℤ
  pub recvfrom : ℤ → ℕ → ℕ → M ℤ
  pub send : ℤ → ℕ → ℕ → M ℤ
  pub sendmsg : ℤ → M ℤ
  pub sendto : ℤ → ℕ → ℕ → M ℤ
  pub writev : ℤ → List (ℕ × ℕ) → M ℤ

-- error numbers of Linux
abbrev pub eagain : ℕ
eagain = 11

abbrev pub enfile : ℕ
enfile = 23

abbrev pub emfile : ℕ
emfile = 24

abbrev pub econnaborted : ℕ
econnaborted = 103

abbrev pub etimedout : ℕ
etimedout = 110

abbrev pub einprogress : ℕ
einprogress = 115

abbrev pub minus_two : ℤ
minus_two = negsuc 1

-- `ret == -1 && errno == EAGAIN`
abbrev pub would_block : ℤ → Rt → Bool
would_block ret s = eqb_ℤ ret minus_one && (s.errno == eagain)

-- `ut->status & BIT(k)`
abbrev pub status_has : Ptr → ℕ → M Bool
status_has ut k = do u ← load ut; pure (has u.status k)

-- `_sched_get()->cur_uthread`, which every function of the file takes for running
abbrev pub running : M Ptr
running = do cur ← cur_uthread; deref cur
