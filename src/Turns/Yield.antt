-- ===== src/Turns/Yield.antt =====
-- The running uthread yields.
use uthread.Base.{ℕ, ◌≡◌, refl, ap, ◌∙◌, some, ==_refl, update, arith}
use mathlib.Core.Path.{subst}
use uthread.Types.{Ptr, Uthread}
use uthread.Machine.{M, Rt, ok, Cell, live, Env, store_live, deref-some, ◌>>=◌}
use uthread.Lifecycle.{yield_enter}
use uthread.Resume.{resume_leave}
use uthread.Resume.Leave.{idle_sched, queued, resume_leave_going_on}
use uthread.Turns.{Place, Represents}
use uthread.Turns.Facts.{
  Represents-running, running_alone, count_absent, count_added, count-last, here-cur, joined_of,
}
use uthread.Turns.Moved.{no-Waits, moved}

pub yield_enter_lem :
    (i : ℕ) (a : Ptr) (s : Rt) (u : Uthread)
    → s.tls ≡ some i
    → (s.global.all_sched i).cur_uthread ≡ some a
    → s.heap a ≡ live u
    → yield_enter s
      ≡ ok a (record s { heap = update s.heap a (live (record u { is_wating_yield_signal = 0 })) })
unfolding yield_enter
yield_enter_lem i a s u own cur alive =
    let yielding = λ (v : Uthread). record v { is_wating_yield_signal = 0 } in
    rw (deref-some s.tls s own)
      (rw (deref-some (s.global.all_sched i).cur_uthread s cur, store_live a s yielding alive))

module _ ⦃e : Env⦄ where
  -- a uthread yields, and its scheduler goes on
  unfoldable pub turn_yield : ℕ → M (Unit {0})
  turn_yield i = do a ← yield_enter; resume_leave i a

  pub turn_yield-Represents :
      (i j : ℕ) (place : Ptr → Place) (s t : Rt) (a : Ptr)
      → Represents i j place s
      → (s.global.all_sched i).cur_uthread ≡ some a
      → turn_yield i s ≡ ok tt t
      → Represents i j (update place a Place.queued) t × (t.global.n_uthread ≡ s.global.n_uthread)
  unfolding turn_yield
  turn_yield-Represents i j place s t a before cur run =
      let (runs, (u, alive, home, going, awake)) = Represents-running i j place s a before cur in
      let (no_ready, no_sleep, no_wait) = running_alone i j place s a before runs in
      let u' : Uthread = record u { is_wating_yield_signal = 0 } in
      let s1 : Rt = record s { heap = update s.heap a (live u') } in
      let left : turn_yield i s
          ≡ ok tt (record s1 { global = queued j a (idle_sched i s.global) }) =
        rw (
          yield_enter_lem i a s u before.own cur alive,
          resume_leave_going_on i j a s1 u' (rw (==_refl a)) going before.bound,
          awake,
        ) in
      let global = queued j a (idle_sched i s.global) in
      let end : record s1 { global = global } ≡ t = cc in
      subst
        (λ (q : Rt).
          Represents i j (update place a Place.queued) q
          × (q.global.n_uthread ≡ s.global.n_uthread))
        end
        (
          moved i j a Place.queued (live u') place s (record s1 { global = global }) before
              (record {
                own = before.own;
                bound = rw (==_refl i) before.bound;
                fits = (u', refl, home, going, awake);
                heap = λ b. refl;
                ready = λ b. rw (==_refl j) (
                    count-last a b (s.global.all_p j).ready
                    ∙ count_added a b (s.global.all_p j).ready no_ready);
                sleeping =
                    λ b. rw (==_refl j) (count_absent a b (s.global.all_p j).sleeping no_sleep);
                current = λ b.
                    rw (==_refl i)
                      (ground (arith, here-cur a b (s.global.all_sched i).cur_uthread cur));
                waiting =
                    no-Waits refl
                      (λ b. rw (==_refl j) (count_absent a b (s.global.all_p j).waiting no_wait));
                joins = λ v x is joined. (u, alive, ap (λ (w : Cell). joined_of w) is ∙ joined);
                held = λ b v stood joined.
                    let (sleeps, free) = before.joiners b a v stood joined in cc;
              }),
          refl,
        )
