-- ===== src/Turns/Refines.antt =====
-- Each step of the runtime with one p is a move of one uthread, or of two.
use uthread.Turns.Number.{turn_resume-Keeps, turn_event-Keeps, turn_expired-Keeps}
use uthread.Base.{ℕ, ◌≡◌, refl, ap, ◌∙◌, sym, Option, none, some, Bool, inl, inr, ℤ}
use uthread.Status.{Event}
use uthread.Types.{Ptr}
use uthread.Machine.{Cell, Rt, ok, Env}
use uthread.Resume.Leave.{Mutex}
use uthread.Turns.{Place, in_run, here, Represents}
use uthread.Turns.Facts.{joined_of, Represents-running}
use uthread.Turns.Trees.{RbLaws}
use uthread.Turns.Yield.{turn_yield-Represents}
use uthread.Turns.Waits.{turn_sleep-Represents, turn_wait-Represents}
use uthread.Turns.Joins.{turn_join-Represents}
use uthread.Turns.Runs.{turn_resume-Represents}
use uthread.Turns.Events.{turn_event, turn_event-Represents}
use uthread.Turns.Expires.{turn_expired-Represents}
use uthread.Turns.Exits.{turn_exit, turn_exit-Represents}
use uthread.Turns.Move.{
  Heeds, counts, Move, resumed, roused, yielded, slept, ended, ended_waking, stayed,
}
use uthread.Turns.Step.{
  lost, Step, acts, resumes, handles, expires, yields, sleeps, waits, joins, exits,
}
use uthread.Turns.Acts.{Moved, Act-Moved}

-- When no uthread runs, none stands where one does.
none_runs :
    (i j : ℕ) (place : Ptr → Place) (s : Rt)
    → Represents i j place s
    → (s.global.all_sched i).cur_uthread ≡ none
    → (b : Ptr) → in_run (place b) ≡ 0
none_runs i j place s before idle b = sym (before.current b) ∙ ap (here b) idle

module _ ⦃e : Env⦄ (laws : RbLaws e) (mutex : Mutex e) (i j : ℕ) (place : Ptr → Place) (s t : Rt)
    (before : Represents i j place s) where
  event_Moved :
      (fd : ℤ) (ev : Event) (eof : Bool)
      → (s.global.all_sched i).cur_uthread ≡ none
      → turn_event i fd ev eof s ≡ ok tt t
      → Moved laws mutex i j place s t before (λ f. f)
  event_Moved fd ev eof idle run =
      elim (turn_event-Represents laws i j place s t fd ev eof before idle run) [
        | inl same ↦ (
          place,
          stayed refl,
          rw same before,
          ap (λ (r : Rt). r.global.n_uthread) same,
          tt,
          λ f. refl,
        )
        | inr (a, lies, after) ↦ (
          _,
          roused a (none_runs i j place s before idle) lies refl,
          after,
          turn_event-Keeps i fd ev eof s t tt run,
          tt,
          λ f. refl,
        )
      ]

  exit_Moved :
      (a : Ptr) (retval : Option ℕ)
      → (s.global.all_sched i).cur_uthread ≡ some a
      → turn_exit i retval s ≡ ok tt t
      → Moved laws mutex i j place s t before (λ f. f)
  exit_Moved a retval cur run =
      let (runs, (u, alive, _, _, _)) = Represents-running i j place s a before cur in
      elim (turn_exit-Represents laws mutex i j place s a u before cur alive retval t run) [
        | inl (alone, after, fewer) ↦ (
          _,
          ended a runs refl,
          after,
          fewer,
          ap (λ (c : Cell). joined_of c) alive ∙ alone,
          λ f. refl,
        )
        | inr (x, lies, after, fewer, link) ↦ (
          _,
          ended_waking a x runs lies refl,
          after,
          fewer,
          ap (λ (c : Cell). joined_of c) alive ∙ link,
          λ f. refl,
        )
      ]

  -- the move of a turn
  pub Step_Moved : (step : Step i j s t) → Moved laws mutex i j place s t before (lost step)
  Step_Moved (resumes a rest idle first run) =
      let (queued', after) = turn_resume-Represents i j place s t a rest before idle first run in
      (
        _,
        resumed a (none_runs i j place s before idle) queued' refl,
        after,
        turn_resume-Keeps i j a rest s t tt run,
        tt,
        λ f. refl,
      )
  Step_Moved (handles fd ev eof idle run) = event_Moved fd ev eof idle run
  Step_Moved (expires a u k idle alive key lies run) =
      let (lies, after) =
        turn_expired-Represents laws i j place s t a u k before idle alive key lies run in
      (
        _,
        roused a (none_runs i j place s before idle) lies refl,
        after,
        turn_expired-Keeps i a s t tt run,
        tt,
        λ f. refl,
      )
  Step_Moved (yields a cur run) =
      let (runs, _) = Represents-running i j place s a before cur in
      let (after, same) = turn_yield-Represents i j place s t a before cur run in
      (_, yielded a runs refl, after, same, tt, λ f. refl)
  Step_Moved (sleeps a ms cur free run) =
      let (runs, _) = Represents-running i j place s a before cur in
      let (after, same) = turn_sleep-Represents laws i j place s t a ms before cur free run in
      (_, slept a runs refl, after, same, tt, λ f. refl)
  Step_Moved (waits a fd ev ms cur alone run) =
      let (runs, _) = Represents-running i j place s a before cur in
      let (after, same) = turn_wait-Represents laws i j place s t a fd ev ms before cur alone run in
      (_, slept a runs refl, after, same, tt, λ f. refl)
  Step_Moved (joins a b retval w cur block apart unjoined free run) =
      let (runs, _) = Represents-running i j place s a before cur in
      let (after, same) =
        turn_join-Represents laws i j place s t a b retval w before cur block apart unjoined free
          run in
      (_, slept a runs refl, after, same, tt, λ f. refl)
  Step_Moved (exits a retval cur run) = exit_Moved a retval cur run
  Step_Moved (acts act) = Act-Moved laws mutex i j place s t before act

  -- Over a lawful search tree and a mutex that works, with one p: where each uthread stands in one place
  -- of `s`, a turn from `s` to `t` makes a move of the places, and each uthread stands in its new place
  -- of `t`. n_uthread of `t` is what the move makes of that of `s`: one more where a uthread is created
  -- or fails to be, one less where one ends. A uthread that ends and that another one joined wakes that
  -- one, and wakes none only if no other one joined it.
  pub Step-refines :
      Step i j s t
      → (q : Ptr → Place) × (m : Move place q) × Represents i j q t
        × (t.global.n_uthread ≡ counts m s.global.n_uthread)
        × Heeds m (λ a. joined_of (s.heap a))
  Step-refines step =
      let (q, move, after, number, heeds, _) = Step_Moved step in (q, move, after, number, heeds)
