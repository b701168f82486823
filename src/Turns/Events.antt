-- ===== src/Turns/Events.antt =====
-- A descriptor is ready: the uthread that waits for it, if any, runs.
use mathlib.Core.Path.{subst}
use uthread.Base.{◌∙◌, ◌<◌, count, ℕ, ◌≡◌, none, some, Bool, update, Option-cases, inl, inr, ℤ, ◌⊎◌}
use uthread.Status.{Event, event_code}
use uthread.Types.{Ptr}
use uthread.Machine.{live, M, Rt, ok, Env, bind-eq-ok, ◌>>=◌, ◌>>◌, pure}
use uthread.Event.{drop_waiting, desched_event, event_found}
use uthread.Resume.{resume_enter}
use uthread.Turns.{Place, asleep, Represents}
use uthread.Turns.Trees.{RbLaws}
use uthread.Turns.Marks.{event_found-Marks}
use uthread.Turns.Found.{found_runs}
use uthread.Turns.Dropped.{search, desched_event_lem, drop_nobody, drop_waiting-ok}

module _ ⦃e : Env⦄ where
  -- one event: what `handle_event` does before its switch
  unfoldable pub turn_event : ℕ → ℤ → Event → Bool → M (Unit {0})
  turn_event i fd ev eof = desched_event fd (event_code ev) >>= λ found. elim found [
    | none ↦ pure tt
    | some a ↦ do event_found fd eof a; resume_enter i a
  ]

module _ ⦃e : Env⦄ (laws : RbLaws e) where
  pub turn_event-Represents :
      (i j : ℕ) (place : Ptr → Place) (s t : Rt) (fd : ℤ) (ev : Event) (eof : Bool)
      → Represents i j place s
      → (s.global.all_sched i).cur_uthread ≡ none
      → turn_event i fd ev eof s ≡ ok tt t
      → (t ≡ s) ⊎ ((a : Ptr) × (place a ≡ asleep) × Represents i j (update place a Place.running) t)
  unfolding turn_event
  turn_event-Represents i j place s t fd ev eof before idle run =
      let opened = rw (desched_event_lem i j fd (event_code ev) s before.own before.bound) at run in
      let order = search fd (event_code ev) s in
      elim (Option-cases (e.rb_find order (s.global.all_p j).waiting)) [
        | inl nobody ↦ let done = rw (nobody, drop_nobody laws j s) at opened in inl cc
        | inr (a, somebody) ↦
            let (member, _) = laws.found order a (s.global.all_p j).waiting somebody in
            let (d, v, dropped, there, home, _, _) =
              drop_waiting-ok laws i j place s a before member in
            let woken = rw (somebody, dropped) at opened in
            let (_, f, found, entered) =
              bind-eq-ok (event_found fd eof a d) (λ _. resume_enter i a) woken in
            let (lies, after) =
              found_runs laws i j place s d f t a before idle member dropped
                (λ w alive home' _. event_found-Marks fd eof a j w d f alive home' found) entered in
            inr (a, lies, after)
      ]

  -- What is done to the uthread that is found keeps the thread.
  pub event_found-own :
      (i j : ℕ) (place : Ptr → Place) (s d f : Rt) (a : Ptr) (fd : ℤ) (eof : Bool)
      → Represents i j place s
      → 0 < count a (s.global.all_p j).waiting
      → drop_waiting j (some a) s ≡ ok tt d
      → event_found fd eof a d ≡ ok tt f
      → f.tls ≡ some i
  event_found-own i j place s d f a fd eof before member dropped found =
      let (c, v, dropped', there, home, own, _) =
        drop_waiting-ok laws i j place s a before member in
      let same : c ≡ d = cc in
      let there' : d.heap a ≡ live v = subst (λ (q : Rt). q.heap a ≡ live v) same there in
      let own' : d.tls ≡ s.tls = subst (λ (q : Rt). q.tls ≡ s.tls) same own in
      let m = event_found-Marks fd eof a j v d f there' home found in m.own ∙ own' ∙ before.own
