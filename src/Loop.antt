-- ===== src/Loop.antt =====
-- uthread_sched.c: the loop of a scheduler. Every loop runs on the fuel that it is given.
pub mod End
pub mod Round
use uthread.Base.{
  ℕ, zero, suc, ◌-◌, Option, none, some, Bool, true, false, not, ◌&&◌, ◌==◌, ltb, ℤ, pos, eqb_ℤ,
  if◌then◌else◌, List, [], ◌∷◌, is_empty, get_elem?, get_last?, head?,
}
use uthread.Status.{rd, wr}
use uthread.Types.{Ptr, P, EpollEvent}
use uthread.Machine.{
  M, Rt, Result, ok, stop, Call, Env, syscall, note, pure, raise, out_of_fuel, wild_pointer, ◌>>=◌,
  ◌>>◌, get, modify, assert_that, deref, when, get_p, set_p, get_sched, sched_get, sched_p,
}
use uthread.Resume.{uthread_resume}
use uthread.Event.{resume_expired, handle_event}
use uthread.Poll.{uthread_poll}

-- ECONNRESET, with the number of Linux
abbrev pub econnreset : ℕ
econnreset = 104

-- `_sched_work_done`
unfoldable pub sched_work_done : P → Bool
sched_work_done p = is_empty p.ready && (is_empty p.sleeping && is_empty p.waiting)

-- `sched->p && !_sched_work_done(sched->p)`
unfoldable pub has_work : ℕ → M Bool
has_work i s =
    ok
      (elim (s.global.all_sched i).p [
        | none ↦ false
        | some j ↦ not (sched_work_done (s.global.all_p j))
      ])
      s

unfoldable pub has_p : ℕ → M Bool
has_p i s = ok (elim (s.global.all_sched i).p [ none ↦ false | some j ↦ true ]) s

abbrev pub same : Ptr → Option Ptr → Bool
same ut none = false
same ut (some l) = ut == l

-- an entry past those that `epoll_wait` wrote is not modelled
abbrev pub event_entry : Option EpollEvent → M EpollEvent
event_entry none = raise wild_pointer
event_entry (some ev) = pure ev

module _ ⦃e : Env⦄ where
  -- the first of the ready queue of p `j`, if there is one, is resumed; `again` goes on
  unfoldable pub run_first : M (Unit {0}) → ℕ → Option Ptr → ℕ → List Ptr → M (Unit {0})
  run_first again i last j [] = pure tt
  run_first again i last j (ut ∷ rest) = do
    set_p j λ q. record q { ready = rest }
    uthread_resume ut
    bound ← has_p i
    if not bound then pure tt else if same ut last then pure tt else again

  -- the loop over the ready queue, up to the uthread that was last when it began
  unfoldable pub run_ready : ℕ → ℕ → Option Ptr → M (Unit {0})
  run_ready zero i last = raise out_of_fuel
  run_ready (suc fuel) i last =
      let again = run_ready fuel i last in
      do j ← sched_p i; p ← get_p j; run_first again i last j p.ready

  -- one entry of `eventlist`: for reading, then for writing
  unfoldable pub run_event : EpollEvent → M (Unit {0})
  run_event ev = do
    when ev.hup (modify λ s. record s { errno = econnreset })
    handle_event ev.fd rd ev.hup
    handle_event ev.fd wr ev.hup

  -- the loop over the new events, from the last one down
  unfoldable pub run_events : ℕ → ℕ → M (Unit {0})
  run_events zero i = raise out_of_fuel
  run_events (suc fuel) i =
      let again = run_events fuel i in
      do
        sc ← get_sched i
        elim sc.p [
          | none ↦ pure tt
          | some j ↦ do
            p ← get_p j
            if p.num_new_events == 0 then pure tt else (do
              set_p j λ q. record q { num_new_events = q.num_new_events - 1 }
              ev ← event_entry (get_elem? p.eventlist (p.num_new_events - 1))
              run_event ev
              again)
        ]

  -- what the body of the outer loop does after the sleepers whose time is up: the ready ones, and then,
  -- unless a `break` skips it, the poll and the new events
  unfoldable pub serve : ℕ → ℕ → M (Unit {0})
  serve fuel i = do
    j ← sched_p i
    p ← get_p j
    run_ready fuel i (get_last? p.ready)
    bound ← has_p i
    when bound (do uthread_poll fuel; run_events fuel i)

  -- the body of the outer loop
  unfoldable pub sched_round : ℕ → ℕ → M (Unit {0})
  sched_round fuel i = do resume_expired fuel i; serve fuel i

  -- `free_source`
  unfoldable pub free_source : List ℕ → M (Unit {0})
  free_source [] = pure tt
  free_source (i ∷ is) = do sc ← get_sched i; note (Call.free_stack sc.stack); free_source is

  -- the end of the process
  unfoldable pub exit_process : M (Unit {0})
  exit_process = do
    r ← syscall Call.mutex_lock
    assert_that (eqb_ℤ r (pos 0))
    s ← get
    free_source s.global.sched_with_stack
    λ t. stop 0 t

  -- what follows the outer loop: the process ends, or `goto start`
  unfoldable pub sched_idle_step : M (Unit {0}) → M (Unit {0})
  sched_idle_step again = do s ← get; if s.global.n_uthread == 0 then exit_process else again

  unfoldable pub sched_loop : ℕ → ℕ → M (Unit {0})
  sched_loop zero i = raise out_of_fuel
  sched_loop (suc fuel) i =
      let again = sched_loop fuel i in
      do
        work ← has_work i
        if work
            then (do
              sched_round fuel i
              bound ← has_p i
              if bound then again else sched_idle_step again)
            else sched_idle_step again

  -- `_sched_run`
  unfoldable pub sched_run : ℕ → M (Unit {0})
  sched_run fuel = do i ← sched_get; sched_loop fuel i
