-- ===== src/Turns/Marks.antt =====
-- Code that changes one block, and neither where its uthread is nor whether it has ended.
use uthread.Base.{
  ℕ, ◌≡◌, refl, ap, ◌∙◌, some, Bool, true, false, ◌==◌, ==_refl, if◌then◌else◌, update, Bool-cases,
  inl, inr, ℤ, pos, eqb_ℤ,
}
use uthread.Status.{has, set_bit, clear_bit, event_code, wr}
use uthread.Status.St
use uthread.Status.Laws.{has-set_bit, has-clear_bit}
use uthread.Types.{Ptr, Uthread}
use uthread.Machine.{
  Rt, ok, Cell, live, Env, Call, syscall, when, assert_that, store, status_set, load_live,
  store_live, deref-some, bind-eq-ok,
}
use uthread.Sleep.{fd_only}
use uthread.Event.{clear_waiting, event_found}
use uthread.Turns.Waits.{heap_case}

-- From `s` to `t` only the block of `a` changes, from `u`.
pub record Marks (a : Ptr) (u : Uthread) (s t : Rt) : Type 0 where
  pub block : Uthread
  pub own : t.tls ≡ s.tls
  pub heap : (b : Ptr) → t.heap b ≡ (if b == a then live block else s.heap b)
  pub global : t.global ≡ s.global
  pub home : block.p ≡ u.p
  pub joined : block.ut_joined ≡ u.ut_joined
  pub ended : has block.status St.exited ≡ has u.status St.exited
  pub sleeps : has block.status St.sleeping ≡ has u.status St.sleeping
  pub key : has u.status St.sleeping ≡ true → block.fd_wait ≡ u.fd_wait

pub Marks-live : (a : Ptr) (u : Uthread) (s t : Rt) (m : Marks a u s t) → t.heap a ≡ live m.block
Marks-live a u s t m = m.heap a ∙ rw (==_refl a)

pub Marks-trans :
    (a : Ptr) (u : Uthread) (s t r : Rt) → (m : Marks a u s t) → Marks a m.block t r → Marks a u s r
Marks-trans a u s t r m k = record {
  block = k.block;
  own = k.own ∙ m.own;
  heap = λ b. elim (Bool-cases (b == a)) [
    | inl hit ↦ rw hit (k.heap b ∙ rw hit)
    | inr miss ↦ rw miss (k.heap b ∙ rw miss (m.heap b ∙ rw miss))
  ];
  global = k.global ∙ m.global;
  home = k.home ∙ m.home;
  joined = k.joined ∙ m.joined;
  ended = k.ended ∙ m.ended;
  sleeps = k.sleeps ∙ m.sleeps;
  key = λ h. k.key (m.sleeps ∙ h) ∙ m.key h;
}

-- nothing that counts changes
pub Marks-same :
    (a : Ptr) (u : Uthread) (s t : Rt)
    → s.heap a ≡ live u
    → t.heap ≡ s.heap
    → t.global ≡ s.global
    → t.tls ≡ s.tls
    → Marks a u s t
Marks-same a u s t alive heap global own = record {
  block = u;
  own = own;
  heap = λ b. ap (λ (h : Ptr → Cell). h b) heap ∙ heap_case a b s.heap u alive;
  global = global;
  home = refl;
  joined = refl;
  ended = refl;
  sleeps = refl;
  key = λ h. refl;
}

pub Marks-equal : (a : Ptr) (u : Uthread) (s t : Rt) → s.heap a ≡ live u → t ≡ s → Marks a u s t
Marks-equal a u s t alive is =
    Marks-same a u s t alive (ap (λ (q : Rt). q.heap) is) (ap (λ (q : Rt). q.global) is)
      (ap (λ (q : Rt). q.tls) is)

pub Marks-store :
    (a : Ptr) (u : Uthread) (s t : Rt) (f : Uthread → Uthread)
    → s.heap a ≡ live u
    → (f u).p ≡ u.p
    → (f u).ut_joined ≡ u.ut_joined
    → has (f u).status St.exited ≡ has u.status St.exited
    → has (f u).status St.sleeping ≡ has u.status St.sleeping
    → (has u.status St.sleeping ≡ true → (f u).fd_wait ≡ u.fd_wait)
    → store a f s ≡ ok tt t
    → Marks a u s t
Marks-store a u s t f alive home joined ended sleeps key run =
    let done = rw (store_live a s f alive) at run in
    let heap : t.heap ≡ update s.heap a (live (f u)) = cc in
    record {
      block = f u;
      own = cc;
      heap = λ b. ap (λ (h : Ptr → Cell). h b) heap;
      global = cc;
      home = home;
      joined = joined;
      ended = ended;
      sleeps = sleeps;
      key = key;
    }

pub assert_same : (b : Bool) (s t : Rt) → assert_that b s ≡ ok tt t → t ≡ s
assert_same true s t h = cc
assert_same false s t h = cc

module _ ⦃e : Env⦄ where
  pub syscall_keeps :
      (c : Call) (r : ℤ) (s t : Rt)
      → syscall c s ≡ ok r t
      → (t.heap ≡ s.heap) × (t.global ≡ s.global) × (t.tls ≡ s.tls)
  unfolding syscall
  syscall_keeps c r s t h = (cc, cc, cc)

  pub clear_waiting-Marks :
      (a : Ptr) (u : Uthread) (s t : Rt)
      → s.heap a ≡ live u
      → clear_waiting a s ≡ ok tt t
      → Marks a u s t
  unfolding clear_waiting
  clear_waiting-Marks a u s t alive run = elim (Bool-cases (has u.status St.wait_rd)) [
    | inl reading ↦
        Marks-store a u s t (λ v. record v { status = clear_bit v.status 7 }) alive refl refl
          (has-clear_bit u.status 7 2) (has-clear_bit u.status 7 3) (λ h. refl)
          (rw (load_live a s alive, reading) at run)
    | inr other ↦ elim (Bool-cases (has u.status (event_code wr))) [
      | inl writing ↦
          Marks-store a u s t (λ v. record v { status = clear_bit v.status 1 }) alive refl refl
            (has-clear_bit u.status 1 2) (has-clear_bit u.status 1 3) (λ h. refl)
            (rw (load_live a s alive, other, writing) at run)
      | inr neither ↦
          let done = rw (load_live a s alive, other, neither) at run in
          let is : t ≡ s = cc in Marks-equal a u s t alive is
    ]
  ]

  eof_Marks :
      (eof : Bool) (a : Ptr) (u : Uthread) (s t : Rt)
      → s.heap a ≡ live u
      → when eof (status_set a St.fdeof) s ≡ ok tt t
      → Marks a u s t
  eof_Marks true a u s t alive run =
      Marks-store a u s t (λ v. record v { status = set_bit v.status 6 }) alive refl refl
        (has-set_bit u.status 6 2) (has-set_bit u.status 6 3) (λ h. refl) run
  eof_Marks false a u s t alive run = let is : t ≡ s = cc in Marks-equal a u s t alive is

  pub event_found-Marks :
      (fd : ℤ) (eof : Bool) (a : Ptr) (j : ℕ) (u : Uthread) (s t : Rt)
      → s.heap a ≡ live u
      → u.p ≡ some j
      → event_found fd eof a s ≡ ok tt t
      → Marks a u s t
  unfolding event_found
  event_found-Marks fd eof a j u s t alive home run =
      let loaded = rw (load_live a s alive) at run in
      let (_, s1, asserted, r1) =
        bind-eq-ok (assert_that (eqb_ℤ fd (fd_only u.fd_wait)) s) _ loaded in
      let same : s1 ≡ s = assert_same (eqb_ℤ fd (fd_only u.fd_wait)) s s1 asserted in
      let m0 = Marks-equal a u s s1 alive same in
      let (_, s2, cleared, r2) = bind-eq-ok (clear_waiting a s1) _ r1 in
      let m2 = clear_waiting-Marks a m0.block s1 s2 (Marks-live a u s s1 m0) cleared in
      let r3 = rw (deref-some u.p s2 home) at r2 in
      let c : Call = Call.epoll_del (s2.global.all_p j).poller_fd fd in
      let (r, s3, called, r4) = bind-eq-ok (syscall c s2) _ r3 in
      let (heap3, global3, own3) = syscall_keeps c r s2 s3 called in
      let (_, s4, asserted', r5) = bind-eq-ok (assert_that (eqb_ℤ r (pos 0)) s3) _ r4 in
      let same' : s4 ≡ s3 = assert_same (eqb_ℤ r (pos 0)) s3 s4 asserted' in
      let m3 = Marks-same a m2.block s2 s3 (Marks-live a m0.block s1 s2 m2) heap3 global3 own3 in
      let m4 = Marks-equal a m3.block s3 s4 (Marks-live a m2.block s2 s3 m3) same' in
      let m5 = eof_Marks eof a m4.block s4 t (Marks-live a m3.block s3 s4 m4) r5 in
      Marks-trans a u s s1 t m0 (
        Marks-trans a m0.block s1 s2 t m2
          (Marks-trans a m2.block s2 s3 t m3 (Marks-trans a m3.block s3 s4 t m4 m5)))
