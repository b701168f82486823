-- ===== src/Turns/Expires.antt =====
-- The time of a uthread that waits for a descriptor is up, and it runs.
use uthread.Turns.Keys.{key_of, wait_cmp-key, wait_cmp-equal, waiter_key}
use mathlib.Core.Path.{subst}
use uthread.Base.{
  false, inr, inl, Option-cases, ℕ, ◌<◌, ◌≡◌, ap, ◌∙◌, sym, none, some, count, update, arith, pos,
}
use uthread.Status.St
use uthread.Types.{Ptr, Uthread, GlobalData, zero_uthread}
use uthread.Machine.{M, Rt, ok, live, Env, peek, status_set, bind-eq-ok, ◌>>◌}
use uthread.Lifecycle.{wait_cmp}
use uthread.Sleep.{desched_sleep}
use uthread.Event.{cancel_event, expire_enter, drop_waiting}
use uthread.Status.{has}
use uthread.Turns.Marks.{Marks}
use uthread.Resume.{resume_enter}
use uthread.Turns.{waits_for, Place, asleep, Fits, Represents}
use uthread.Turns.Trees.{RbLaws}
use uthread.Turns.Touch.{touched-Represents}
use uthread.Turns.Found.{found_runs}
use uthread.Turns.Dropped.{drop_waiting-ok}
use uthread.Turns.Facts.{in_sleep-inv}
use uthread.Turns.Cancel.{cancel_event_lem, cancel_tail_lem, desched_found, expired-Marks}

module _ ⦃e : Env⦄ where
  -- the time of `a` is up: what the scheduler does before its switch
  unfoldable pub turn_expired : ℕ → Ptr → M (Unit {0})
  turn_expired i a = do expire_enter a; resume_enter i a

module _ ⦃e : Env⦄ (laws : RbLaws e) where
  -- The search for what a waiting uthread waits for finds it.
  keyed_found :
      (i j : ℕ) (place : Ptr → Place) (s : Rt) (a : Ptr) (u : Uthread) (k : ℕ)
      → Represents i j place s
      → s.heap a ≡ live u
      → u.fd_wait ≡ pos k
      → 0 < count a (s.global.all_p j).waiting
      → e.rb_find
          (λ x. wait_cmp (record zero_uthread { fd_wait = pos k }) (peek s.heap x))
          (s.global.all_p j).waiting
        ≡ some a
  keyed_found i j place s a u k before alive waits member =
      let l = (s.global.all_p j).waiting in
      let key : Uthread = record zero_uthread { fd_wait = pos k } in
      let order = λ (x : Ptr). wait_cmp key (peek s.heap x) in
      let mine : (peek s.heap a).fd_wait ≡ pos k = ap key_of alive ∙ waits in
      elim (Option-cases (e.rb_find order l)) [
        | inl nobody ↦
            let wrong =
              laws.missed order a l nobody member (wait_cmp-key key (peek s.heap a) (sym mine)) in
            cc
        | inr (b, somebody) ↦
            let (other, equal) = laws.found order b l somebody in
            let (_, _, theirs) = waiter_key i j place s b before other in
            let (_, _, ours) = waiter_key i j place s a before member in
            let same : a ≡ b =
              before.sole a b member other
                (ours ∙ mine ∙ wait_cmp-equal key (peek s.heap b) equal ∙ sym theirs) in
            somebody ∙ ap (λ x. some x) (sym same)
      ]

  -- What the scheduler does to a sleeper that waits for a descriptor: the uthread leaves both trees, and
  -- its block is marked.
  expired_parts :
      (i j : ℕ) (place : Ptr → Place) (s f : Rt) (a : Ptr) (u : Uthread) (k : ℕ)
      → Represents i j place s
      → s.heap a ≡ live u
      → u.fd_wait ≡ pos k
      → 0 < count a (s.global.all_p j).sleeping
      → expire_enter a s ≡ ok tt f
      → (r : Rt) × (d : Rt) × Represents i j place r
        × (r.global ≡ s.global)
        × (0 < count a (r.global.all_p j).waiting)
        × (drop_waiting j (some a) r ≡ ok tt d)
        × ((w : Uthread) → d.heap a ≡ live w → has w.status St.sleeping ≡ false → Marks a w d f)
  unfolding expire_enter
  expired_parts i j place s f a u k before alive waits sleeps entered =
      let l = (s.global.all_p j).waiting in
      let lies : place a ≡ asleep =
        in_sleep-inv (place a) (omega (arith, before.sleepers a, sleeps)) in
      let one_wait : count a l ≡ 1 = before.keyed a k lies (ap waits_for alive ∙ waits) in
      let member : 0 < count a l = omega (arith, one_wait) in
      let known = keyed_found i j place s a u k before alive waits member in
      let (v, is, home', _, _) = subst (λ (p : Place). Fits j p (s.heap a)) lies (before.cells a) in
      let same_block : u ≡ v = cc in
      let home : u.p ≡ some j = ap (λ (w : Uthread). w.p) same_block ∙ home' in
      let (_, c, cancelled, rest) =
        bind-eq-ok (cancel_event a s) (λ _. (do desched_sleep a; status_set a St.expired))
          entered in
      let (r, m, keys, tail) = cancel_event_lem j a s c u alive home cancelled in
      let (d, o, descheduled, stored) = cancel_tail_lem a u.fd_wait k r c waits tail in
      let there = touched-Represents i j place a u s r before alive m in
      let trees : (r.global.all_p j).waiting ≡ l =
        ap (λ (g : GlobalData). (g.all_p j).waiting) m.global in
      let dropped =
        desched_found i j a k s r d o there.own there.bound keys
          (ap (e.rb_find (λ x. wait_cmp (record zero_uthread { fd_wait = pos k }) (peek s.heap x)))
              trees
            ∙ known)
          descheduled in
      (
        r,
        d,
        there,
        m.global,
        subst (λ n. 0 < n) (sym (ap (count a) trees)) member,
        dropped,
        λ w block awake. expired-Marks a w d c f block awake stored rest,
      )

  pub expire_enter-own :
      (i j : ℕ) (place : Ptr → Place) (s f : Rt) (a : Ptr) (u : Uthread) (k : ℕ)
      → Represents i j place s
      → s.heap a ≡ live u
      → u.fd_wait ≡ pos k
      → 0 < count a (s.global.all_p j).sleeping
      → expire_enter a s ≡ ok tt f
      → f.tls ≡ some i
  expire_enter-own i j place s f a u k before alive waits sleeps entered =
      let (r, d, there, _, member, dropped, marks) =
        expired_parts i j place s f a u k before alive waits sleeps entered in
      let (c, w, dropped', block, _, own, awake) =
        drop_waiting-ok laws i j place r a there member in
      let same : c ≡ d = cc in
      let m = marks w (subst (λ (q : Rt). q.heap a ≡ live w) same block) awake in
      m.own ∙ subst (λ (q : Rt). q.tls ≡ r.tls) same own ∙ there.own

  pub turn_expired-Represents :
      (i j : ℕ) (place : Ptr → Place) (s t : Rt) (a : Ptr) (u : Uthread) (k : ℕ)
      → Represents i j place s
      → (s.global.all_sched i).cur_uthread ≡ none
      → s.heap a ≡ live u
      → u.fd_wait ≡ pos k
      → 0 < count a (s.global.all_p j).sleeping
      → turn_expired i a s ≡ ok tt t
      → (place a ≡ asleep) × Represents i j (update place a Place.running) t
  unfolding turn_expired
  turn_expired-Represents i j place s t a u k before idle alive waits sleeps run =
      let (_, f, entered, resumed) = bind-eq-ok (expire_enter a s) (λ _. resume_enter i a) run in
      let (r, d, there, global, member, dropped, marks) =
        expired_parts i j place s f a u k before alive waits sleeps entered in
      found_runs laws i j place r d f t a there
        (ap (λ (g : GlobalData). (g.all_sched i).cur_uthread) global ∙ idle) member dropped
        (λ w block _ awake. marks w block awake) resumed
