-- ===== src/Turns/Cancel.antt =====
-- `_uthread_cancel_event`, on a uthread that waits for a descriptor.
use uthread.Turns.Keys.{key_of}
use mathlib.Core.Path.{subst, fun_ext}
use uthread.Base.{
  true, ℕ, ◌≡◌, refl, ap, ◌∙◌, sym, Option, some, false, not, ◌==◌, update, arith, Bool-cases, inl,
  inr, ℤ, pos, minus_one, ltb_ℤ, eqb_ℤ,
}
use uthread.Status.{has, set_bit, clear_bit, event_code, wr}
use uthread.Status.St
use uthread.Status.Laws.{has-set_bit}
use uthread.Types.{Ptr, Uthread, zero_uthread}
use uthread.Machine.{
  M, Rt, ok, Cell, live, Env, Call, peek, syscall, when, assert_that, store, status_set, load_live,
  store_live, deref-some, bind-eq-ok, ◌>>=◌, ◌>>◌, pure,
}
use uthread.Lifecycle.{wait_cmp}
use uthread.Sleep.{fd_key, fd_only, fd_event, desched_sleep}
use uthread.Event.{clear_waiting, cancel_event, desched_event, drop_waiting}
use uthread.Turns.Marks.{
  Marks, Marks-live, Marks-trans, Marks-same, Marks-equal, Marks-store, assert_same, syscall_keeps,
  clear_waiting-Marks,
}
use uthread.Turns.Dropped.{search, desched_event_lem}

-- the comparison reads only the keys
wait_cmp-same :
    (u v x y : Uthread)
    → u.fd_wait ≡ v.fd_wait
    → x.fd_wait ≡ y.fd_wait
    → wait_cmp u x ≡ wait_cmp v y
unfolding wait_cmp
wait_cmp-same u v x y one two = rw (one, two)

fd_key-parts : (k : ℕ) → fd_key (fd_only (pos k)) (fd_event (pos k)) ≡ pos k
unfolding fd_key fd_event fd_only
fd_key-parts k = ground arith

key_store :
    (a : Ptr) (f : Uthread → Uthread) (s t : Rt) (u : Uthread)
    → s.heap a ≡ live u
    → (f u).fd_wait ≡ u.fd_wait
    → store a f s ≡ ok tt t
    → (x : Ptr) → (peek t.heap x).fd_wait ≡ (peek s.heap x).fd_wait
key_store a f s t u alive same run x =
    let done = rw (store_live a s f alive) at run in
    let heap : t.heap ≡ update s.heap a (live (f u)) = cc in
    let at_x : t.heap x ≡ update s.heap a (live (f u)) x = ap (λ (h : Ptr → Cell). h x) heap in
    elim (Bool-cases (x == a)) [
      | inl hit ↦
          let is : x ≡ a = ground arith in
          let before : s.heap x ≡ live u = ap s.heap is ∙ alive in
          let there : t.heap x ≡ live (f u) = at_x ∙ rw hit in
          ap key_of there ∙ same ∙ sym (ap key_of before)
      | inr miss ↦ let there : t.heap x ≡ s.heap x = at_x ∙ rw miss in ap key_of there
    ]

desched_awake :
    ⦃e : Env⦄ (a : Ptr) (s : Rt) (u : Uthread)
    → s.heap a ≡ live u
    → has u.status St.sleeping ≡ false
    → desched_sleep a s ≡ ok tt s
unfolding desched_sleep
desched_awake a s u alive awake = rw (load_live a s alive, awake)

module _ ⦃e : Env⦄ where
  clear_waiting_keys :
      (a : Ptr) (u : Uthread) (s t : Rt)
      → s.heap a ≡ live u
      → clear_waiting a s ≡ ok tt t
      → (x : Ptr) → (peek t.heap x).fd_wait ≡ (peek s.heap x).fd_wait
  unfolding clear_waiting
  clear_waiting_keys a u s t alive run x = elim (Bool-cases (has u.status St.wait_rd)) [
    | inl reading ↦
        key_store a (λ v. record v { status = clear_bit v.status 7 }) s t u alive refl
          (rw (load_live a s alive, reading) at run) x
    | inr other ↦ elim (Bool-cases (has u.status (event_code wr))) [
      | inl writing ↦
          key_store a (λ v. record v { status = clear_bit v.status 1 }) s t u alive refl
            (rw (load_live a s alive, other, writing) at run) x
      | inr neither ↦
          let done = rw (load_live a s alive, other, neither) at run in
          let is : t ≡ s = cc in ap (λ (q : Rt). (peek q.heap x).fd_wait) is
    ]
  ]

  -- the end of `_uthread_cancel_event`, after the descriptor was removed
  abbrev cancel_tail : Ptr → ℤ → M (Unit {0})
  cancel_tail a f = do
    when (not (ltb_ℤ f (pos 0))) (do found ← desched_event (fd_only f) (fd_event f); pure tt)
    store a λ v. record v { fd_wait = minus_one }

  pub cancel_event_lem :
      (j : ℕ) (a : Ptr) (s c : Rt) (u : Uthread)
      → s.heap a ≡ live u
      → u.p ≡ some j
      → cancel_event a s ≡ ok tt c
      → (r : Rt) × Marks a u s r
        × ((x : Ptr) → (peek r.heap x).fd_wait ≡ (peek s.heap x).fd_wait)
        × (cancel_tail a u.fd_wait r ≡ ok tt c)
  unfolding cancel_event
  cancel_event_lem j a s c u alive home run =
      let loaded = rw (load_live a s alive) at run in
      let (_, s1, cleared, q1) = bind-eq-ok (clear_waiting a s) _ loaded in
      let m1 = clear_waiting-Marks a u s s1 alive cleared in
      let q2 = rw (deref-some u.p s1 home) at q1 in
      let call = Call.epoll_del (s1.global.all_p j).poller_fd (fd_only u.fd_wait) in
      let (r, s2, called, q3) = bind-eq-ok (syscall call s1) _ q2 in
      let (heap, global, own) = syscall_keeps call r s1 s2 called in
      let (_, s3, asserted, q4) = bind-eq-ok (assert_that (eqb_ℤ r (pos 0)) s2) _ q3 in
      let same : s3 ≡ s2 = assert_same (eqb_ℤ r (pos 0)) s2 s3 asserted in
      let m2 = Marks-same a m1.block s1 s2 (Marks-live a u s s1 m1) heap global own in
      let m3 = Marks-equal a m2.block s2 s3 (Marks-live a m1.block s1 s2 m2) same in
      (
        s3,
        Marks-trans a u s s1 s3 m1 (Marks-trans a m1.block s1 s2 s3 m2 m3),
        λ x.
            ap (λ (q : Rt). (peek q.heap x).fd_wait) same
            ∙ ap (λ (h : Ptr → Cell). (peek h x).fd_wait) heap
            ∙ clear_waiting_keys a u s s1 alive cleared x,
        q4,
      )

  pub cancel_tail_lem :
      (a : Ptr) (f : ℤ) (k : ℕ) (r c : Rt)
      → f ≡ pos k
      → cancel_tail a f r ≡ ok tt c
      → (d : Rt) × (o : Option Ptr) × (desched_event (fd_only (pos k)) (fd_event (pos k)) r
          ≡ ok o d)
        × (store a (λ v. record v { fd_wait = minus_one }) d ≡ ok tt c)
  cancel_tail_lem a f k r c is run =
      let known : cancel_tail a (pos k) r ≡ ok tt c =
        subst (λ g. cancel_tail a g r ≡ ok tt c) is run in
      let positive : ltb_ℤ (pos k) (pos 0) ≡ false = ground arith in
      let searched = rw positive at known in
      let (_, d, descheduled, stored) =
        bind-eq-ok ((do found ← desched_event (fd_only (pos k)) (fd_event (pos k)); pure tt) r) _
          searched in
      let (o, d', found, same) =
        bind-eq-ok (desched_event (fd_only (pos k)) (fd_event (pos k)) r) (λ _. pure tt)
          descheduled in
      let end : d' ≡ d = cc in (d, o, rw end at found, stored)

  pub desched_found :
      (i j : ℕ) (a : Ptr) (k : ℕ) (s r d : Rt) (o : Option Ptr)
      → r.tls ≡ some i
      → (r.global.all_sched i).p ≡ some j
      → ((x : Ptr) → (peek r.heap x).fd_wait ≡ (peek s.heap x).fd_wait)
      → e.rb_find
          (λ x. wait_cmp (record zero_uthread { fd_wait = pos k }) (peek s.heap x))
          (r.global.all_p j).waiting
        ≡ some a
      → desched_event (fd_only (pos k)) (fd_event (pos k)) r ≡ ok o d
      → drop_waiting j (some a) r ≡ ok tt d
  desched_found i j a k s r d o own bound keys known run =
      let key = fd_key (fd_only (pos k)) (fd_event (pos k)) in
      let order : search (fd_only (pos k)) (fd_event (pos k)) r
          ≡ (λ x. wait_cmp (record zero_uthread { fd_wait = pos k }) (peek s.heap x)) =
        fun_ext (λ x.
          wait_cmp-same (record zero_uthread { fd_wait = key })
            (record zero_uthread { fd_wait = pos k }) (peek r.heap x) (peek s.heap x)
            (fd_key-parts k) (keys x)) in
      let hit : e.rb_find (search (fd_only (pos k)) (fd_event (pos k)) r) (r.global.all_p j).waiting
          ≡ some a =
        ap (λ f. e.rb_find f (r.global.all_p j).waiting) order ∙ known in
      let opened =
        sym (desched_event_lem i j (fd_only (pos k)) (fd_event (pos k)) r own bound) ∙ run in
      let taken = rw hit at opened in
      let (_, d', dropped, same) =
        bind-eq-ok (drop_waiting j (some a) r) (λ _. pure (some a)) taken in
      let end : d' ≡ d = cc in rw end at dropped

  -- from the state after the trees to the one before the switch
  pub expired-Marks :
      (a : Ptr) (w : Uthread) (d c f : Rt)
      → d.heap a ≡ live w
      → has w.status St.sleeping ≡ false
      → store a (λ v. record v { fd_wait = minus_one }) d ≡ ok tt c
      → (do desched_sleep a; status_set a St.expired) c ≡ ok tt f
      → Marks a w d f
  expired-Marks a w d c f alive awake stored run =
      let m =
        Marks-store a w d c (λ v. record v { fd_wait = minus_one }) alive refl refl refl refl
          (λ h. let wrong : true ≡ false = sym h ∙ awake in cc) stored in
      let block = Marks-live a w d c m in
      let set = rw (desched_awake a c m.block block (m.sleeps ∙ awake)) at run in
      Marks-trans a w d c f m (
        Marks-store a m.block c f (λ v. record v { status = set_bit v.status St.expired }) block
          refl refl (has-set_bit m.block.status 5 2) (has-set_bit m.block.status 5 3) (λ h. refl)
          set)
