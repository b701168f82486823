-- ===== src/Turns/Round.antt =====
-- uthread_sched.c: what a round of _sched_run does after the sleepers whose time is up, as a
-- sequence of turns: the ready uthreads, the poll and the new events.
use mathlib.Core.Path.{subst}
use uthread.Base.{
  ℕ, zero, suc, get_elem?, ◌-◌, ◌≡◌, refl, sym, ◌∙◌, Option, none, some, Bool, ◌==◌, ==_refl,
  update, Bool-cases, inl, inr, ℤ,
}
use uthread.Status.{Event, rd, wr, event_code}
use uthread.Types.{EpollEvent}
use uthread.Machine.{
  Rt, ok, Env, of_ut, of_sched, when, modify, bind-eq-ok, deref-some, ◌>>=◌, ◌>>◌,
}
use uthread.Resume.{resume_enter, resume_leave, uthread_resume}
use uthread.Resume.Leave.{Mutex}
use uthread.Event.{desched_event, event_found, handle_event}
use uthread.Loop.Round.{has_p_lem}
use uthread.Loop.{econnreset, run_ready, run_events, run_event, event_entry, has_p}
use uthread.Turns.Trees.{RbLaws}
use uthread.Turns.Dropped.{desched_event-found}
use uthread.Turns.Events.{turn_event, event_found-own}
use uthread.Turns.Step.{Step, handles}
use uthread.Turns.Refines.{Step-refines}
use uthread.Turns.Reaches.{goes_on}
use uthread.Turns.Guest.{Rested}
use uthread.Turns.Loops.{pass_Rested, Guests, resume_enter-cur, switched, run_ready-Rested}
use uthread.Turns.Polls.{uthread_poll-Passed}
use uthread.Loop.{serve}
use uthread.Poll.{uthread_poll}
use uthread.Base.{get_last?}

event_entry_same :
    (o : Option EpollEvent) (s t : Rt) (ev : EpollEvent) → event_entry o s ≡ ok ev t → t ≡ s
event_entry_same none s t ev run = cc
event_entry_same (some x) s t ev run = cc

module _ ⦃e : Env⦄ (laws : RbLaws e) (mutex : Mutex e) (i j : ℕ) (guests : Guests e i j) where
  -- one event
  handle_Rested :
      (s0 s t : Rt) (fd : ℤ) (ev : Event) (eof : Bool)
      → Rested i j s0 s
      → handle_event fd ev eof s ≡ ok tt t
      → Rested i j s0 t
  unfolding handle_event uthread_resume turn_event
  handle_Rested s0 s t fd ev eof (place, before, idle, reached) run =
      let (found, d, descheduled, more) = bind-eq-ok (desched_event fd (event_code ev) s) _ run in
      elim (desched_event-found laws i j fd (event_code ev) s d found before.own before.bound
        descheduled) [
          | inl (nobody, same_state) ↦
              let done = rw nobody at more in
              let end : s ≡ t = sym same_state ∙ cc in
              subst (Rested i j s0) end (place, before, idle, reached)
          | inr (a, somebody, member, dropped) ↦
              let woken = rw somebody at more in
              let (_, f, marked, resumed) =
                bind-eq-ok (event_found fd eof a d) (λ _. uthread_resume a) woken in
              let own =
                event_found-own laws i j place s d f a fd eof before member dropped marked in
              let inner = rw (deref-some f.tls f own) at resumed in
              let (_, q, entered, rest) =
                bind-eq-ok (resume_enter i a f)
                  (λ _. (do e.switch (of_ut a) (of_sched i); resume_leave i a)) inner in
              let step : Step i j s q =
                handles fd ev eof idle (rw (descheduled, somebody, marked) entered) in
              let (p, _, there, _, _) = Step-refines laws mutex i j place s q before step in
              switched laws mutex i j guests s0 q t a p there (goes_on reached step)
                (resume_enter-cur i a f q entered) rest
        ]

  -- one entry of what epoll_wait wrote
  run_event_Rested :
      (s0 s t : Rt) (ev : EpollEvent) → Rested i j s0 s → run_event ev s ≡ ok tt t → Rested i j s0 t
  unfolding run_event
  run_event_Rested s0 s t ev now run =
      let (_, m, set, more) =
        bind-eq-ok (when ev.hup (modify λ s. record s { errno = econnreset }) s)
          (λ _. (do handle_event ev.fd rd ev.hup; handle_event ev.fd wr ev.hup)) run in
      let (_, r, first, second) =
        bind-eq-ok (handle_event ev.fd rd ev.hup m) (λ _. handle_event ev.fd wr ev.hup) more in
      let there : Rested i j s0 m = elim (Bool-cases ev.hup) [
        | inl hung ↦
            let done = rw hung at set in
            let is : record s { errno = econnreset } ≡ m = cc in
            subst (Rested i j s0) is (
              pass_Rested i j s0 s (record s { errno = econnreset }) now
                (record {
                  own = refl;
                  heap = refl;
                  scheds = refl;
                  ready = refl;
                  sleeping = refl;
                  waiting = refl;
                  number = refl;
                }))
        | inr fine ↦
            let done = rw fine at set in let is : s ≡ m = cc in subst (Rested i j s0) is now
      ] in
      handle_Rested s0 r t ev.fd wr ev.hup (handle_Rested s0 m r ev.fd rd ev.hup there first) second

  -- the loop over the new events
  run_events-Rested :
      (fuel : ℕ) (s0 s t : Rt) → Rested i j s0 s → run_events fuel i s ≡ ok tt t → Rested i j s0 t
  unfolding run_events
  run_events-Rested zero s0 s t now run = cc
  run_events-Rested (suc fuel) s0 s t now run =
      let (place, before, idle, reached) = now in
      let p = s.global.all_p j in
      let opened = rw before.bound at run in
      elim (Bool-cases (p.num_new_events == 0)) [
        | inl none_left ↦
            let done = rw none_left at opened in let is : s ≡ t = cc in subst (Rested i j s0) is now
        | inr some_left ↦
            let fewer : Rt = record s {
              global = record (s.global) {
                all_p =
                    update s.global.all_p j (record p { num_new_events = p.num_new_events - 1 });
              };
            } in
            let going = rw some_left at opened in
            let (ev, m, entry, more) =
              bind-eq-ok (event_entry (get_elem? p.eventlist (p.num_new_events - 1)) fewer)
                (λ ev. (do run_event ev; run_events fuel i)) going in
            let same_state : m ≡ fewer =
              event_entry_same (get_elem? p.eventlist (p.num_new_events - 1)) fewer m ev entry in
            let there : Rested i j s0 m = subst (Rested i j s0) (sym same_state) (
              pass_Rested i j s0 s fewer now (record {
                own = refl;
                heap = refl;
                scheds = refl;
                ready = rw (==_refl j);
                sleeping = rw (==_refl j);
                waiting = rw (==_refl j);
                number = refl;
              })) in
            let (_, r, handled, again) =
              bind-eq-ok (run_event ev m) (λ _. run_events fuel i) more in
            run_events-Rested fuel s0 r t (run_event_Rested s0 m r ev there handled) again
      ]

  -- the poll and the new events
  polled_Rested :
      (fuel : ℕ) (s0 s t : Rt)
      → Rested i j s0 s
      → (do uthread_poll fuel; run_events fuel i) s ≡ ok tt t
      → Rested i j s0 t
  polled_Rested fuel s0 s t now run =
      let (place, before, _, _) = now in
      let (_, m, polled, more) = bind-eq-ok (uthread_poll fuel s) (λ _. run_events fuel i) run in
      run_events-Rested fuel s0 m t
        (pass_Rested i j s0 s m now
          (uthread_poll-Passed j fuel i s m before.own before.bound polled))
        more

  -- what a round does after the sleepers whose time is up
  pub serve-Rested :
      (fuel : ℕ) (s0 s t : Rt) → Rested i j s0 s → serve fuel i s ≡ ok tt t → Rested i j s0 t
  unfolding serve
  serve-Rested fuel s0 s t now run =
      let (place, before, idle, reached) = now in
      let opened = rw (deref-some (s.global.all_sched i).p s before.bound) at run in
      let (_, m, ran, more) =
        bind-eq-ok (run_ready fuel i (get_last? (s.global.all_p j).ready) s)
          (λ _. (do bound ← has_p i; when bound (do uthread_poll fuel; run_events fuel i)))
          opened in
      let there =
        run_ready-Rested laws mutex i j guests fuel s0 s m (get_last? (s.global.all_p j).ready) now
          ran in
      let (q, after, _, _) = there in
      polled_Rested fuel s0 m t there (rw (has_p_lem i m after.bound) at more)
