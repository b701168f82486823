-- ===== src/Create.antt =====
-- uthread.c and uthread_sched.c: starting the runtime, and creating uthreads.
pub mod Ids
pub mod Reuse
pub mod Bound
pub mod Made
pub mod Started
use uthread.Base.{
  ℕ, zero, suc, ◌+◌, ◌-◌, ◌*◌, ◌%◌, ◌^◌, ◌<◌, Option, none, some, Bool, true, false, not, ◌==◌, ℤ,
  pos, negsuc, pos_part, minus_one, eqb_ℤ, if◌then◌else◌, List, [], ◌∷◌, ◌++◌, head?, update,
}
use uthread.Status.{bit}
use uthread.Status.St
use uthread.Types.{Ptr, Uthread, P, Sched, GlobalData, zero_uthread, stack_bytes}
use uthread.Machine.{
  M, Rt, Result, ok, live, Call, Env, Ctx, of_ut, of_sched, syscall, pure, ◌>>=◌, ◌>>◌, get, modify,
  modify_global, assert_that, deref, when, store, free, get_p, set_p, get_sched, set_sched, sched_p,
  ready_insert,
}
use uthread.Timer.{create_timewheel}
use uthread.Lifecycle.{poke}

abbrev pub max_count_sched : ℕ
max_count_sched = 1000

abbrev pub max_procs : ℕ
max_procs = 4

abbrev pub max_count_uthread : ℕ
max_count_uthread = 10000000

-- SCHED_ST_IDLE, SCHED_ST_RUNNING, P_ST_IDLE and P_ST_RUNNING
abbrev pub st_idle : ℕ
st_idle = 0

abbrev pub st_running : ℕ
st_running = 1

abbrev pub is_null : ℤ → Bool
is_null r = eqb_ℤ r (pos 0)

abbrev pub tail : List ℕ → List ℕ
tail [] = []
tail (x ∷ xs) = xs

-- the fields that `_runtime_init` gives the global data
unfoldable pub init_global : GlobalData → GlobalData
init_global g = record g {
  count_sched = max_procs;
  max_count_sched = max_count_sched;
  sched_idle = [];
  sched_with_stack = [];
  bitmap_sched = λ _. 0;
  next_sched_id = max_procs;
  count_p = max_procs;
  p_idle = [];
  max_count_uthread = max_count_uthread;
  bitmap_ut = λ _. 0;
  next_ut_id = 0;
}

-- scheduler `i` and p `i` become idle
unfoldable pub init_sched : ℕ → ℕ → GlobalData → GlobalData
init_sched i stack g = record g {
  all_sched = update g.all_sched i (record (g.all_sched i) {
    id = i;
    status = bit st_idle;
    stack = stack;
    stack_size = stack_bytes;
  });
  bitmap_sched = update g.bitmap_sched i 1;
  sched_idle = g.sched_idle ++ (i ∷ []);
  sched_with_stack = g.sched_with_stack ++ (i ∷ []);
}

unfoldable pub init_p : ℕ → ℕ → GlobalData → GlobalData
init_p i tid g = record g {
  all_p = update g.all_p i (record (g.all_p i) {
    id = i;
    status = bit st_idle;
    tid = tid;
    ready = [];
    sleeping = [];
    waiting = [];
  });
  p_idle = g.p_idle ++ (i ∷ []);
}

-- the id after `n`: the loop goes on while the next id is 1
unfoldable pub next_id : ℕ → ℕ
next_id n = let m = (n + 1) % max_count_uthread in if m == 1 then (m + 1) % max_count_uthread else m

module _ ⦃e : Env⦄ where
  -- the loop of `_runtime_init`, with the rounds left: false if a stack could not be allocated
  unfoldable pub init_loop : ℕ → ℕ → M Bool
  init_loop zero i = pure true
  init_loop (suc n) i =
      let next = init_loop n (i + 1) in
      do
        stack ← syscall Call.calloc
        if is_null stack then pure false else (do
          modify_global (init_sched i (pos_part stack))
          tid ← syscall Call.pthread_self
          modify_global (init_p i (pos_part tid))
          next)

  -- the first scheduler and the first p are bound to the running thread
  unfoldable pub start_first : M (Unit {0})
  start_first = do
    s ← get
    i ← deref (head? s.global.sched_idle)
    modify_global λ g. record g { sched_idle = tail g.sched_idle }
    set_sched i λ sc. record sc { status = bit st_running }
    t ← get
    j ← deref (head? t.global.p_idle)
    set_sched i λ sc. record sc { p = some j }
    modify_global λ g. record g { p_idle = tail g.p_idle }
    set_p j λ q. record q { status = bit st_running; sched = some i }
    fd ← syscall Call.epoll_create
    set_p j λ q. record q { poller_fd = fd }
    modify λ r. record r { tls = some i }
    sc ← get_sched i
    let stack = sc.stack + sc.stack_size
    poke (stack - 24) 0
    poke (stack - 16) (e.sched_address i)
    set_sched i λ sc'. record sc' {
      ctx = record (sc'.ctx) { esp = stack - 32; ebp = stack - 24; eip = e.sched_run_address };
    }

  -- `_runtime_init`: 0, or the `errno` of a failed allocation. The thread of the wheel runs at once.
  unfoldable pub runtime_init : M ℕ
  runtime_init = do
    modify_global init_global
    done ← init_loop max_procs 0
    if done
        then (do start_first; r ← syscall (Call.pthread_create 0); create_timewheel; pure 0)
        else (do s ← get; pure s.errno)

  -- a zeroed `struct uthread`, or `none` for NULL
  unfoldable pub calloc_uthread : M (Option Ptr)
  calloc_uthread = do
    a ← syscall Call.calloc
    if is_null a then pure none else (do
      modify λ s. record s { heap = update s.heap (pos_part a) (live zero_uthread) }
      pure (some (pos_part a)))

  -- what `_uthread_create_main` does before its switch: the main uthread, or `none` for NULL
  unfoldable pub create_main_enter : ℕ → M (Option Ptr)
  create_main_enter i = calloc_uthread >>= λ made. elim made [
    | none ↦ pure none
    | some ut_main ↦ do
      sc ← get_sched i
      store ut_main λ u. record u {
        is_main = 1;
        id = 0;
        status = bit St.ready;
        ut_joined = none;
        p = sc.p;
        fd_wait = minus_one;
        is_wating_yield_signal = 1;
      }
      modify_global
          λ g. record g { bitmap_ut = update g.bitmap_ut 0 1; next_ut_id = g.next_ut_id + 1 }
      j ← sched_p i
      ready_insert j ut_main
      modify_global λ g. record g { n_uthread = (g.n_uthread + 1) % 2 ^ 32 }
      pure (some ut_main)
  ]

  -- `_uthread_create_main`: 0, or the `errno` of a failed allocation
  unfoldable pub create_main : ℕ → M ℕ
  create_main i = create_main_enter i >>= λ made. elim made [
    | none ↦ do s ← get; pure s.errno
    | some ut_main ↦ do
      e.switch (of_sched i) (of_ut ut_main)
      masked ← syscall Call.pthread_sigmask
      handled ← syscall Call.sigaction
      pure 0
  ]

  -- `pthread_once(&key_once, _uthread_key_create)`
  unfoldable pub key_create_once : M (Unit {0})
  key_create_once = do
    s ← get
    when (not s.key_created) (do
      r ← syscall Call.key_create
      assert_that (eqb_ℤ r (pos 0))
      modify λ t. record t { key_created = true; tls = none })

  -- the scheduler of the thread; the first call starts the runtime, `none` if that failed
  unfoldable pub own_sched : M (Option ℕ)
  own_sched = do
    s ← get
    elim s.tls [
      | some i ↦ pure (some i)
      | none ↦ do
        r ← runtime_init
        t ← get
        elim t.tls [ none ↦ pure none | some i ↦ do q ← create_main i; pure (some i) ]
    ]

  -- the id of the new uthread is taken, under the mutex
  pub take_id : Ptr → M (Unit {0})
  take_id ut = do
    r ← syscall Call.mutex_lock
    assert_that (eqb_ℤ r (pos 0))
    s ← get
    let n = s.global.next_ut_id
    store ut λ u. record u { id = n }
    modify_global λ g. record g {
      n_uthread = (g.n_uthread + 1) % 2 ^ 32;
      bitmap_ut = update g.bitmap_ut n 1;
      next_ut_id = next_id n;
    }
    q ← syscall Call.mutex_unlock
    assert_that (eqb_ℤ q (pos 0))

  -- the part of `uthread_create` after the runtime is there: -1, or 0 and the new uthread
  pub create_on : ℕ → ℕ → ℕ → M (ℤ × Option Ptr)
  create_on i func arg = calloc_uthread >>= λ made. elim made [
    | none ↦ pure (minus_one, none)
    | some ut ↦ do
      take_id ut
      r ← syscall (Call.posix_memalign stack_bytes)
      if is_null r then (do free ut; pure (minus_one, none)) else (do
        sc ← get_sched i
        store ut λ u. record u {
          stack = pos_part r;
          stack_size = stack_bytes;
          status = bit St.new;
          func = func;
          arg = arg;
          is_main = 0;
          wakeup_time_usec = 0;
          ut_joined = none;
          p = sc.p;
          fd_wait = minus_one;
          is_wating_yield_signal = 1;
        }
        j ← sched_p i
        ready_insert j ut
        pure (pos 0, some ut))
  ]

  -- `uthread_create`
  unfoldable pub uthread_create : ℕ → ℕ → M (ℤ × Option Ptr)
  uthread_create func arg = do
    key_create_once
    found ← own_sched
    elim found [ none ↦ pure (minus_one, none) | some i ↦ create_on i func arg ]
