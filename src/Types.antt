-- ===== src/Types.antt =====
-- The structures of uthread_inner.h and timer.h. A pointer is a number inside `Option`, with `none`
-- for NULL: uthreads by address, scheds and ps by their place in `all_sched` and `all_p`. The links
-- of queues and trees are not fields: a TAILQ is the list of its members in order, and a red-black
-- tree the list of its members from left to right.
use uthread.Base.{ℕ, Bool, Option, none, List, [], ℤ, pos}

-- the address of a `struct uthread`
abbrev pub Ptr : Type 0
Ptr = ℕ

-- `struct context`, in the order of its words in memory
pub record Context : Type 0 where
  pub esp : ℕ
  pub ebp : ℕ
  pub eip : ℕ
  pub edi : ℕ
  pub esi : ℕ
  pub ebx : ℕ
  pub r1 : ℕ
  pub r2 : ℕ
  pub r3 : ℕ
  pub r4 : ℕ
  pub r5 : ℕ

-- `struct uthread`
pub record Uthread : Type 0 where
  pub ctx : Context
  pub id : ℕ
  pub stack : ℕ
  pub stack_size : ℕ
  pub func : ℕ
  pub arg : ℕ
  pub status : ℕ
  pub is_main : ℕ
  pub wakeup_time_usec : ℕ
  pub ut_joined : Option Ptr
  pub p : Option ℕ
  pub retval : Option ℕ
  pub fd_wait : ℤ
  pub is_wating_yield_signal : ℕ

-- One entry of `eventlist`: its descriptor, and whether EPOLLHUP is among its events.
pub record EpollEvent : Type 0 where
  pub fd : ℤ
  pub hup : Bool

-- `struct p`
pub record P : Type 0 where
  pub id : ℕ
  pub tid : ℕ
  pub status : ℕ
  pub ready : List Ptr
  pub sleeping : List Ptr
  pub waiting : List Ptr
  pub sched : Option ℕ
  pub poller_fd : ℤ
  pub eventlist : List EpollEvent
  pub num_new_events : ℕ

-- `struct sched`
pub record Sched : Type 0 where
  pub id : ℕ
  pub status : ℕ
  pub ctx : Context
  pub stack : ℕ
  pub stack_size : ℕ
  pub p : Option ℕ
  pub cur_uthread : Option Ptr

-- `struct global_data`, with the two arrays that it points to
pub record GlobalData : Type 0 where
  pub all_sched : ℕ → Sched
  pub count_sched : ℕ
  pub max_count_sched : ℕ
  pub sched_idle : List ℕ
  pub sched_with_stack : List ℕ
  pub bitmap_sched : ℕ → ℕ
  pub next_sched_id : ℕ
  pub all_p : ℕ → P
  pub count_p : ℕ
  pub p_idle : List ℕ
  pub n_uthread : ℕ
  pub max_count_uthread : ℕ
  pub bitmap_ut : ℕ → ℕ
  pub next_ut_id : ℕ

-- `struct timer_node`; `next` is the order of the list
pub record TimerNode : Type 0 where
  pub rotation : ℕ
  pub ut : Ptr

-- `struct timer_wheel`: `slot` is an array of ten lists
pub record TimerWheel : Type 0 where
  pub slot : ℕ → List TimerNode
  pub current : ℕ

-- the `#define`s of uthread_inner.h and timer.h
abbrev pub stack_bytes : ℕ
stack_bytes = 131072

-- What `calloc` and the static arrays start as: every byte is zero.
abbrev pub zero_context : Context
zero_context = record {
  esp = 0;
  ebp = 0;
  eip = 0;
  edi = 0;
  esi = 0;
  ebx = 0;
  r1 = 0;
  r2 = 0;
  r3 = 0;
  r4 = 0;
  r5 = 0;
}

abbrev pub zero_uthread : Uthread
zero_uthread = record {
  ctx = zero_context;
  id = 0;
  stack = 0;
  stack_size = 0;
  func = 0;
  arg = 0;
  status = 0;
  is_main = 0;
  wakeup_time_usec = 0;
  ut_joined = none;
  p = none;
  retval = none;
  fd_wait = pos 0;
  is_wating_yield_signal = 0;
}

abbrev pub zero_p : P
zero_p = record {
  id = 0;
  tid = 0;
  status = 0;
  ready = [];
  sleeping = [];
  waiting = [];
  sched = none;
  poller_fd = pos 0;
  eventlist = [];
  num_new_events = 0;
}

abbrev pub zero_sched : Sched
zero_sched = record {
  id = 0;
  status = 0;
  ctx = zero_context;
  stack = 0;
  stack_size = 0;
  p = none;
  cur_uthread = none;
}
