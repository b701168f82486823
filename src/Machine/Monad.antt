-- ===== src/Machine/Monad.antt =====
-- The state of the running program, and computations that read and write it or stop.
use uthread.Base.{ℕ, Bool, true, false, Option, none, some, List, ◌∷◌, ℤ}
use uthread.Status.{Event}
use uthread.Types.{Ptr, Uthread, GlobalData, TimerWheel}

-- What an address of a `struct uthread` holds. After `free` the last contents stay readable, which C
-- leaves undefined; the state records each such access.
pub data Cell : Type 0 where
  absent : Cell
  live freed : Uthread → Cell

-- The calls that leave the library, with the arguments that matter.
pub data Call : Type 0 where
  gettimeofday calloc malloc mutex_lock mutex_unlock pthread_self epoll_create key_create
        sigprocmask pthread_sigmask sigaction :
      Call
  posix_memalign setitimer free_stack : ℕ → Call
  epoll_add : ℤ → ℤ → Event → Call
  epoll_del : ℤ → ℤ → Call
  epoll_wait : ℤ → ℕ → Call
  pthread_kill : ℕ → Call
  pthread_create : ℕ → Call
  set_nonblock : ℤ → Call
  sys_socket : Call
  sys_accept sys_connect : ℤ → Call
  disk_read disk_write : ℤ → ℕ → Call
  -- on a descriptor, at an address of a buffer, so many bytes
  input output : ℤ → ℕ → ℕ → Call
  -- a message or a vector; the number tells how much of the vector is done
  message_in message_out : ℤ → Call
  vector_out : ℤ → List (ℕ × ℕ) → Call

pub record Rt : Type 0 where
  pub heap : Ptr → Cell
  pub global : GlobalData
  pub timer : TimerWheel
  -- what `pthread_getspecific(uthread_sched_key)` gives on the running thread
  pub tls : Option ℕ
  pub key_created : Bool
  pub errno : ℕ
  -- the words of stacks and of the places that `retval` points to
  pub memory : ℕ → ℕ
  pub freed_uses : List Ptr
  -- the calls made so far, the last one first
  pub trace : List Call

pub data Fault : Type 0 where
  assert_failed null_deref wild_pointer no_return out_of_fuel : Fault

-- `stop` is `exit`.
pub data Result (A : Type 0) : Type 0 where
  ok : A → Rt → Result A
  fault : Fault → Result A
  stop : ℕ → Rt → Result A

abbrev pub M : Type 0 → Type 0
M A = Rt → Result A

abbrev pub pure : {A : Type 0} → A → M A
pure a s = ok a s

abbrev pub raise : {A : Type 0} → Fault → M A
raise f s = fault f

abbrev pub bind_result : {A B : Type 0} → Result A → (A → M B) → Result B
bind_result (ok a s) k = k a s
bind_result (fault f) k = fault f
bind_result (stop n s) k = stop n s

infixl 5 ◌>>=◌ ◌>>◌
abbrev pub ◌>>=◌ : {A B : Type 0} → M A → (A → M B) → M B
◌>>=◌ m k s = bind_result (m s) k

abbrev pub ◌>>◌ : {B : Type 0} → M (Unit {0}) → M B → M B
m >> k = m >>= λ _. k

abbrev pub get : M Rt
get s = ok s s

abbrev pub modify : (Rt → Rt) → M (Unit {0})
modify f s = ok tt (f s)

abbrev pub assert_that : Bool → M (Unit {0})
assert_that true = pure tt
assert_that false = raise assert_failed

-- a dereference through a pointer that may be NULL
abbrev pub deref : {A : Type 0} → Option A → M A
deref none = raise null_deref
deref (some a) = pure a

abbrev pub when : Bool → M (Unit {0}) → M (Unit {0})
when true m = m
when false m = pure tt

-- a call that returns nothing
abbrev pub note : Call → M (Unit {0})
note c s = ok tt (record s { trace = c ∷ s.trace })
