-- ===== src/Tests/Setup.antt =====
-- A small program to run the definitions on: a kernel that grants every call, and states with a
-- scheduler, a p and a few uthreads.
use uthread.Base.{
  negsuc, ℕ, true, Option, none, some, List, [], ◌∷◌, ℤ, pos, minus_one, ltb, if◌then◌else◌, ◌==◌,
  erase, head?,
}
use uthread.Types.{Ptr, Uthread, P, GlobalData, TimerWheel, zero_uthread, zero_p, zero_sched}
use uthread.Machine.{Rt, Call, Cell, live, absent, Env, Result, ok, fault, stop}

-- A descriptor takes at most three bytes of a write, and every allocation has an address.
abbrev pub granted : Call → ℤ
granted Call.calloc = pos 4096
granted Call.malloc = pos 64
granted (Call.posix_memalign n) = pos 8192
granted (Call.output fd b n) = pos (if ltb 3 n then 3 else n)
granted (Call.epoll_del p (pos n)) = pos 0
granted (Call.epoll_del p (negsuc n)) = minus_one
granted _ = pos 0

-- A uthread that is switched to comes back at once.
instance abbrev pub env : Env
env = record {
  switch = λ new cur s. ok tt s;
  run_func = λ f a s. ok tt s;
  reply = λ tr c. granted c;
  errno_of = λ tr c. 9;
  clock = λ tr. (elim tr [ [] ↦ 1 | c ∷ cs ↦ 3 ], 0);
  events = λ tr. [];
  exec_address = 4198400;
  sched_run_address = 4198500;
  sched_address = λ i. i;
  rb_insert = λ order a l. (a ∷ l, none);
  rb_remove = λ a l. erase a l;
  rb_find = λ order l. head? l;
  rb_min = λ l. head? l;
}

abbrev pub a_uthread : Uthread
a_uthread = record zero_uthread {
  fd_wait = minus_one;
  status = 2;
  stack = 65536;
  stack_size = 131072;
  p = some 0;
}

abbrev pub one : ℕ → Uthread → ℕ → Cell
one a u b = if b == a then live u else absent

abbrev pub p_with : List Ptr → P
p_with queue = record zero_p { ready = queue; sched = some 0; tid = 77 }

-- Scheduler 0 has p 0, whose ready queue is `queue`, and runs `cur`; scheduler 1 is idle.
abbrev pub globals : List Ptr → Option Ptr → GlobalData
globals queue cur = record {
  all_sched =
      λ i. if i == 0 then record zero_sched { p = some 0; cur_uthread = cur } else zero_sched;
  count_sched = 2;
  max_count_sched = 1000;
  sched_idle = 1 ∷ [];
  sched_with_stack = [];
  bitmap_sched = λ i. 0;
  next_sched_id = 2;
  all_p = λ i. p_with queue;
  count_p = 1;
  p_idle = [];
  n_uthread = 2;
  max_count_uthread = 10000000;
  bitmap_ut = λ i. 0;
  next_ut_id = 7;
}

abbrev pub wheel : TimerWheel
wheel = record { slot = λ i. []; current = 8 }

abbrev pub state : (Ptr → Cell) → List Ptr → Option Ptr → Rt
state heap queue cur = record {
  heap = heap;
  global = globals queue cur;
  timer = wheel;
  tls = some 0;
  key_created = true;
  errno = 0;
  memory = λ a. 0;
  freed_uses = [];
  trace = [];
}

-- the state that a run leaves, or the one it began in
abbrev pub after : {A : Type 0} → Result A → Rt → Rt
after (ok a t) s = t
after (fault f) s = s
after (stop n t) s = t
