-- ===== src/Turns/Step.antt =====
-- The steps of the runtime with one p, and what each does to where the uthreads are.
use uthread.Base.{
  ◌+◌, count, ◌<◌, minus_one, ℕ, ◌≡◌, Option, none, some, Bool, false, List, ◌∷◌, ◌==◌, ℤ, pos,
}
use uthread.Status.{Event}
use uthread.Status.St
use uthread.Types.{Ptr, Uthread, stack_bytes}
use uthread.Machine.{Rt, ok, live, Env, Call, status_set, status_clear}
use uthread.Sleep.{wait_leave}
use uthread.Create.{create_on, create_main_enter, is_null}
use uthread.Create.Made.{locked}
use uthread.Turns.{waits_for, is_live}
use uthread.Turns.Yield.{turn_yield}
use uthread.Turns.Sleep.{turn_sleep}
use uthread.Turns.Waits.{turn_wait}
use uthread.Turns.Keys.{Unwaited}
use uthread.Turns.Joins.{turn_join}
use uthread.Turns.Runs.{turn_resume}
use uthread.Turns.Events.{turn_event}
use uthread.Turns.Expires.{turn_expired}
use uthread.Turns.Exits.{turn_exit}

-- From `s` to `t` only what the uthreads' places do not hang on may change.
pub record Passed (j : ℕ) (s t : Rt) : Type 0 where
  pub own : t.tls ≡ s.tls
  pub heap : t.heap ≡ s.heap
  pub scheds : t.global.all_sched ≡ s.global.all_sched
  pub ready : (t.global.all_p j).ready ≡ (s.global.all_p j).ready
  pub sleeping : (t.global.all_p j).sleeping ≡ (s.global.all_p j).sleeping
  pub waiting : (t.global.all_p j).waiting ≡ (s.global.all_p j).waiting
  pub number : t.global.n_uthread ≡ s.global.n_uthread

module _ ⦃e : Env⦄ where
  -- From `s` to `t` the code of a uthread runs that does not yield, and returns.
  pub data Act (i j : ℕ) (s t : Rt) : Type 0 where
    -- it creates another one; `calloc` gives a block that is not in use
    creates :
        (func arg a r : ℕ) (out : ℤ × Option Ptr)
        → e.reply s.trace Call.calloc ≡ pos a
        → is_null (pos a) ≡ false
        → is_live (s.heap a) ≡ false
        → e.reply (locked s.trace) (Call.posix_memalign stack_bytes) ≡ pos r
        → is_null (pos r) ≡ false
        → create_on i func arg s ≡ ok out t
        → Act i j s t
    -- there is no room for its stack
    creates_none :
        (func arg a : ℕ) (out : ℤ × Option Ptr)
        → e.reply s.trace Call.calloc ≡ pos a
        → is_null (pos a) ≡ false
        → is_live (s.heap a) ≡ false
        → e.reply (locked s.trace) (Call.posix_memalign stack_bytes) ≡ pos 0
        → create_on i func arg s ≡ ok out t
        → Act i j s t
    -- the main uthread is made
    begins_main :
        (a : ℕ) (out : Option Ptr)
        → e.reply s.trace Call.calloc ≡ pos a
        → is_null (pos a) ≡ false
        → is_live (s.heap a) ≡ false
        → create_main_enter i s ≡ ok out t
        → Act i j s t
    -- the rest of `_uthread_sched_sleep`, of `_register_event`, and of `uthread_detach`
    wakes :
        (a : Ptr)
        → (s.global.all_sched i).cur_uthread ≡ some a
        → status_clear a St.sleeping s ≡ ok tt t
        → Act i j s t
    waited :
        (a : Ptr) (ev : Event)
        → (s.global.all_sched i).cur_uthread ≡ some a
        → wait_leave a ev s ≡ ok tt t
        → Act i j s t
    detaches :
        (b : Ptr) (w : Uthread)
        → s.heap b ≡ live w
        → status_set b St.detached s ≡ ok tt t
        → Act i j s t
    -- code that touches none of this: a poll, a tick of the wheel, errno, the bitmap of the ids
    passes : Passed j s t → Act i j s t

  -- From `s` to `t` the code between two switches runs, and returns.
  pub data Step (i j : ℕ) (s t : Rt) : Type 0 where
    -- the scheduler takes the first of its ready queue
    resumes :
        (a : Ptr) (rest : List Ptr)
        → (s.global.all_sched i).cur_uthread ≡ none
        → (s.global.all_p j).ready ≡ a ∷ rest
        → turn_resume i j a rest s ≡ ok tt t
        → Step i j s t
    -- it handles one event
    handles :
        (fd : ℤ) (ev : Event) (eof : Bool)
        → (s.global.all_sched i).cur_uthread ≡ none
        → turn_event i fd ev eof s ≡ ok tt t
        → Step i j s t
    -- the time of a sleeper is up that waits for a descriptor
    expires :
        (a : Ptr) (u : Uthread) (k : ℕ)
        → (s.global.all_sched i).cur_uthread ≡ none
        → s.heap a ≡ live u
        → u.fd_wait ≡ pos k
        → 0 < count a (s.global.all_p j).sleeping
        → turn_expired i a s ≡ ok tt t
        → Step i j s t
    yields :
        (a : Ptr)
        → (s.global.all_sched i).cur_uthread ≡ some a
        → turn_yield i s ≡ ok tt t
        → Step i j s t
    -- it sleeps while it waits for no descriptor
    sleeps :
        (a : Ptr) (ms : ℕ)
        → (s.global.all_sched i).cur_uthread ≡ some a
        → waits_for (s.heap a) ≡ minus_one
        → turn_sleep i a ms s ≡ ok tt t
        → Step i j s t
    -- it waits for what nobody else of its p waits for
    waits :
        (a : Ptr) (fd : ℤ) (ev : Event) (ms : ℕ)
        → (s.global.all_sched i).cur_uthread ≡ some a
        → Unwaited j fd ev s
        → turn_wait i a fd ev ms s ≡ ok tt t
        → Step i j s t
    -- it joins a uthread that nobody joined
    joins :
        (a b : Ptr) (retval : Option ℕ) (w : Uthread)
        → (s.global.all_sched i).cur_uthread ≡ some a
        → s.heap b ≡ live w
        → (a == b) ≡ false
        → w.ut_joined ≡ none
        → waits_for (s.heap a) ≡ minus_one
        → turn_join i a b retval s ≡ ok tt t
        → Step i j s t
    exits :
        (a : Ptr) (retval : Option ℕ)
        → (s.global.all_sched i).cur_uthread ≡ some a
        → turn_exit i retval s ≡ ok tt t
        → Step i j s t
    -- the uthread that runs goes on
    acts : Act i j s t → Step i j s t

  -- what code without a switch makes of the number of the creations that failed
  abbrev pub lost_act : {i j : ℕ} {s t : Rt} → Act i j s t → ℕ → ℕ
  lost_act (creates func arg a r out block there dead stack room run) f = f
  lost_act (creates_none func arg a out block there dead full run) f = f + 1
  lost_act (begins_main a out block there dead run) f = f
  lost_act (wakes a cur run) f = f
  lost_act (waited a ev cur run) f = f
  lost_act (detaches b w alive run) f = f
  lost_act (passes passed) f = f

  -- and what a turn makes of it
  abbrev pub lost : {i j : ℕ} {s t : Rt} → Step i j s t → ℕ → ℕ
  lost (resumes a rest idle first run) f = f
  lost (handles fd ev eof idle run) f = f
  lost (expires a u k idle alive key sleeps' run) f = f
  lost (yields a cur run) f = f
  lost (sleeps a ms cur free run) f = f
  lost (waits a fd ev ms cur alone run) f = f
  lost (joins a b retval w cur block apart unjoined free run) f = f
  lost (exits a retval cur run) f = f
  lost (acts act) f = lost_act act f
