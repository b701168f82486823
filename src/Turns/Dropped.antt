-- ===== src/Turns/Dropped.antt =====
-- A sleeper is taken off the trees of its p.
use mathlib.Core.Path.{subst}
use uthread.Base.{
  Option-cases, Option, ◌⊎◌, ℕ, ◌<◌, ◌≡◌, refl, ap, ◌∙◌, sym, none, some, true, false, ◌==◌,
  ==_refl, if◌then◌else◌, count, update, arith, Bool-cases, inl, inr, ℤ,
}
use uthread.Status.{has, set_bit, clear_bit}
use uthread.Status.St
use uthread.Status.Laws.{has-set_bit, has-clear_bit}
use uthread.Types.{Ptr, Uthread, P, GlobalData, zero_uthread}
use uthread.Machine.{
  bind-eq-ok, Rt, ok, Cell, live, Env, peek, load_live, store_live, update_self, deref-some, ◌>>◌,
  pure,
}
use uthread.Lifecycle.{wait_cmp}
use uthread.Sleep.{fd_key, desched_sleep}
use uthread.Event.{drop_waiting, desched_event}
use uthread.Turns.{Place, asleep, Fits, Represents}
use uthread.Turns.Facts.{in_sleep-inv}
use uthread.Turns.Trees.{RbLaws}

-- the status of a uthread that is woken
abbrev pub roused : Uthread → Uthread
roused u = record u { status = set_bit (clear_bit u.status St.sleeping) St.ready }

pub roused_status :
    (u : Uthread)
    → (has (roused u).status St.exited ≡ has u.status St.exited)
      × (has (roused u).status St.sleeping ≡ false)
roused_status u = (
  has-set_bit (clear_bit u.status 3) 1 2 ∙ has-clear_bit u.status 3 2,
  has-set_bit (clear_bit u.status 3) 1 3 ∙ has-clear_bit u.status 3 3,
)

module _ ⦃e : Env⦄ where
  pub desched_sleep_lem :
      (j : ℕ) (a : Ptr) (s : Rt) (u : Uthread)
      → s.heap a ≡ live u
      → has u.status St.sleeping ≡ true
      → u.p ≡ some j
      → (t : Rt) × (desched_sleep a s ≡ ok tt t)
        × ((b : Ptr) → t.heap b ≡ (if b == a then live (roused u) else s.heap b))
        × (t.tls ≡ s.tls)
        × (t.global ≡ record (s.global) {
          all_p =
              update s.global.all_p j (record (s.global.all_p j) {
                sleeping = e.rb_remove a (s.global.all_p j).sleeping;
              });
        })
  unfolding desched_sleep
  desched_sleep_lem j a s u alive sleeps home =
      let global = record (s.global) {
        all_p =
            update s.global.all_p j
              (record (s.global.all_p j) { sleeping = e.rb_remove a (s.global.all_p j).sleeping });
      } in
      let s1 : Rt = record s { global = global } in
      let clear = λ (v : Uthread). record v { status = clear_bit v.status St.sleeping } in
      let set = λ (v : Uthread). record v { status = set_bit v.status St.ready } in
      let h1 : Ptr → Cell = update s.heap a (live (clear u)) in
      (
        record s1 { heap = update h1 a (live (roused u)) },
        rw (
          load_live a s alive,
          sleeps,
          deref-some u.p s home,
          store_live a s1 clear alive,
          store_live a (record s1 { heap = h1 }) set (update_self s.heap a (live (clear u))),
        ),
        λ b. elim (Bool-cases (b == a)) [ inl hit ↦ rw hit | inr miss ↦ rw miss ],
        refl,
        refl,
      )

  -- the search that an event makes
  abbrev pub search : ℤ → ℕ → Rt → Ptr → ℤ
  search fd ev s a = wait_cmp (record zero_uthread { fd_wait = fd_key fd ev }) (peek s.heap a)

  pub desched_event_lem :
      (i j : ℕ) (fd : ℤ) (ev : ℕ) (s : Rt)
      → s.tls ≡ some i
      → (s.global.all_sched i).p ≡ some j
      → let found = e.rb_find (search fd ev s) (s.global.all_p j).waiting in
        desched_event fd ev s ≡ (do drop_waiting j found; pure found) s
  unfolding desched_event
  desched_event_lem i j fd ev s own bound =
      rw (deref-some s.tls s own) (rw (deref-some (s.global.all_sched i).p s bound))

module _ ⦃e : Env⦄ (laws : RbLaws e) where
  -- p `j` with `a` taken off both of its trees
  abbrev pub untreed : Ptr → P → P
  untreed a p = record p { waiting = e.rb_remove a p.waiting; sleeping = e.rb_remove a p.sleeping }

  drop_waiting_lem :
      (j : ℕ) (a : Ptr) (s : Rt) (u : Uthread)
      → s.heap a ≡ live u
      → has u.status St.sleeping ≡ true
      → u.p ≡ some j
      → (d : Rt) × (drop_waiting j (some a) s ≡ ok tt d)
        × ((b : Ptr) → d.heap b ≡ (if b == a then live (roused u) else s.heap b))
        × (d.tls ≡ s.tls)
        × (d.global.all_sched ≡ s.global.all_sched)
        × (d.global.all_p j ≡ untreed a (s.global.all_p j))
  unfolding drop_waiting
  drop_waiting_lem j a s u alive sleeps home =
      let w : Rt = record s {
        global = record (s.global) {
          all_p =
              update s.global.all_p j
                (record (s.global.all_p j) { waiting = e.rb_remove a (s.global.all_p j).waiting });
        };
      } in
      let (d, done, heap, own, global) = desched_sleep_lem j a w u alive sleeps home in
      (
        d,
        done,
        heap,
        own,
        ap (λ (g : GlobalData). g.all_sched) global,
        ap (λ (g : GlobalData). g.all_p j) global ∙ rw (==_refl j),
      )

  pub drop_nobody : (j : ℕ) (s : Rt) → drop_waiting j none s ≡ ok tt s
  unfolding drop_waiting
  drop_nobody j s = refl

  pub drop_waiting_facts :
      (j : ℕ) (a : Ptr) (s d : Rt) (u : Uthread)
      → s.heap a ≡ live u
      → has u.status St.sleeping ≡ true
      → u.p ≡ some j
      → drop_waiting j (some a) s ≡ ok tt d
      → ((b : Ptr) → d.heap b ≡ (if b == a then live (roused u) else s.heap b))
        × (d.tls ≡ s.tls)
        × (d.global.all_sched ≡ s.global.all_sched)
        × (d.global.all_p j ≡ untreed a (s.global.all_p j))
  drop_waiting_facts j a s d u alive sleeps home run =
      let (c, dropped, heap, own, scheds, trees) = drop_waiting_lem j a s u alive sleeps home in
      let same : c ≡ d = cc in
      subst
        (λ (q : Rt).
          ((b : Ptr) → q.heap b ≡ (if b == a then live (roused u) else s.heap b))
          × (q.tls ≡ s.tls)
          × (q.global.all_sched ≡ s.global.all_sched)
          × (q.global.all_p j ≡ untreed a (s.global.all_p j)))
        same (heap, own, scheds, trees)

  -- the search for a key finds a waiting uthread
  pub drop_waiting-ok :
      (i j : ℕ) (place : Ptr → Place) (s : Rt) (a : Ptr)
      → Represents i j place s
      → 0 < count a (s.global.all_p j).waiting
      → (d : Rt) × (w : Uthread) × (drop_waiting j (some a) s ≡ ok tt d)
        × (d.heap a ≡ live w)
        × (w.p ≡ some j)
        × (d.tls ≡ s.tls)
        × (has w.status St.sleeping ≡ false)
  drop_waiting-ok i j place s a before member =
      let lies : place a ≡ asleep =
        in_sleep-inv (place a) (omega (arith, before.waiters a, member)) in
      let (u, alive, home, going, sleeps) =
        subst (λ (p : Place). Fits j p (s.heap a)) lies (before.cells a) in
      let (d, dropped, heap, own, _, _) = drop_waiting_lem j a s u alive sleeps home in
      let (_, awake) = roused_status u in
      (d, roused u, dropped, heap a ∙ rw (==_refl a), home, own, awake)

  -- What `_uthread_desched_event` finds, it takes off the trees.
  pub desched_event-found :
      (i j : ℕ) (fd : ℤ) (ev : ℕ) (s d : Rt) (o : Option Ptr)
      → s.tls ≡ some i
      → (s.global.all_sched i).p ≡ some j
      → desched_event fd ev s ≡ ok o d
      → ((o ≡ none) × (d ≡ s))
        ⊎ ((a : Ptr) × (o ≡ some a)
            × (0 < count a (s.global.all_p j).waiting)
            × (drop_waiting j (some a) s ≡ ok tt d))
  desched_event-found i j fd ev s d o own bound run =
      let opened = sym (desched_event_lem i j fd ev s own bound) ∙ run in
      let order = search fd ev s in
      let l = (s.global.all_p j).waiting in
      let (_, m, dropped, same) =
        bind-eq-ok (drop_waiting j (e.rb_find order l) s) (λ _. pure (e.rb_find order l)) opened in
      let is : m ≡ d = cc in
      let result : e.rb_find order l ≡ o = cc in
      elim (Option-cases (e.rb_find order l)) [
        | inl nobody ↦
            let none_found = rw (nobody, drop_nobody j s) at dropped in
            inl (sym result ∙ nobody, cc)
        | inr (a, somebody) ↦
            let (member, _) = laws.found order a l somebody in
            inr (a, sym result ∙ somebody, member, rw is at (rw somebody at dropped))
      ]
