-- ===== src/Create/Bound.antt =====
-- The first scheduler and the first p after `_runtime_init`.
use uthread.Base.{
  ℕ, ◌+◌, ◌-◌, ◌<◌, ◌≡◌, refl, ap, ◌∙◌, some, List, [], ◌∷◌, ◌==◌, ==_refl, update, arith, head?,
  Bool-cases, inl, inr, ℤ,
}
use uthread.Status.{bit}
use uthread.Types.{Ptr, P, Sched}
use uthread.Machine.{Rt, ok, Call, Env}
use uthread.Timer.{create_timewheel}
use uthread.Create.{init_global, start_first, runtime_init, st_running, tail}
use uthread.Create.Started.{Allocates, IsIdle, called, syscall_lem, init_loop_lem}

-- what both halves of the start say of the p's uthreads
abbrev uthreads : P → List Ptr × (List Ptr × List Ptr)
uthreads p = (p.ready, (p.sleeping, p.waiting))

module _ ⦃e : Env⦄ where
  start_first_lem :
      (i j : ℕ) (is js : List ℕ) (t : Rt)
      → t.global.sched_idle ≡ i ∷ is
      → t.global.p_idle ≡ j ∷ js
      → (r : Rt) × (start_first t ≡ ok tt r)
        × (r.tls ≡ some i)
        × ((r.global.all_sched i).p ≡ some j)
        × ((r.global.all_p j).sched ≡ some i)
        × (r.global.sched_idle ≡ is)
        × (r.global.p_idle ≡ js)
        × ((k : ℕ) → uthreads (r.global.all_p k) ≡ uthreads (t.global.all_p k))
        × (r.global.next_ut_id ≡ t.global.next_ut_id)
        × (r.heap ≡ t.heap)
        × ((r.global.all_sched i).cur_uthread ≡ (t.global.all_sched i).cur_uthread)
        × (r.global.n_uthread ≡ t.global.n_uthread)
  unfolding start_first
  start_first_lem i j is js t scheds ps =
      let g = t.global in
      let a1 : ℕ → Sched =
        update g.all_sched i (record (g.all_sched i) { status = bit st_running }) in
      let a2 : ℕ → Sched = update a1 i (record (a1 i) { p = some j }) in
      let p1 : ℕ → P =
        update g.all_p j (record (g.all_p j) { status = bit st_running; sched = some i }) in
      let before : Rt = record t {
        global = record g {
          all_sched = a2;
          all_p = p1;
          sched_idle = tail g.sched_idle;
          p_idle = tail g.p_idle;
        };
      } in
      let fd : ℤ = e.reply t.trace Call.epoll_create in
      let p2 : ℕ → P = update p1 j (record (p1 j) { poller_fd = fd }) in
      let stack = (a2 i).stack + (a2 i).stack_size in
      let a3 : ℕ → Sched = update a2 i (record (a2 i) {
        ctx = record ((a2 i).ctx) { esp = stack - 32; ebp = stack - 24; eip = e.sched_run_address };
      }) in
      let first_s : head? t.global.sched_idle ≡ some i = ap head? scheds in
      let first_p : head? t.global.p_idle ≡ some j = ap head? ps in
      (
        record (called Call.epoll_create before) {
          global = record (before.global) { all_sched = a3; all_p = p2 };
          tls = some i;
          memory = update (update t.memory (stack - 24) 0) (stack - 16) (e.sched_address i);
        },
        rw (first_s, first_p, syscall_lem Call.epoll_create before),
        refl,
        rw (==_refl i),
        rw (==_refl j),
        ap tail scheds,
        ap tail ps,
        λ k. elim (Bool-cases (k == j)) [
          | inl hit ↦ let is_j : k ≡ j = ground arith in rw (hit, ==_refl j, is_j)
          | inr miss ↦ rw miss
        ],
        refl,
        refl,
        rw (==_refl i),
        refl,
      )

module _ ⦃e : Env⦄ (allocates : Allocates e) where
  -- the same, with what stays as it was
  pub runtime_init-made :
      (s : Rt)
      → (r : Rt) × (runtime_init s ≡ ok 0 r)
        × (r.tls ≡ some 0)
        × ((r.global.all_sched 0).p ≡ some 0)
        × ((r.global.all_p 0).sched ≡ some 0)
        × (r.global.sched_idle ≡ 1 ∷ 2 ∷ 3 ∷ [])
        × (r.global.p_idle ≡ 1 ∷ 2 ∷ 3 ∷ [])
        × ((k : ℕ) → k < 4 → IsIdle (r.global.all_p k))
        × (r.global.next_ut_id ≡ 0)
        × (r.timer.current ≡ 0)
        × (r.heap ≡ s.heap)
        × ((r.global.all_sched 0).cur_uthread ≡ (s.global.all_sched 0).cur_uthread)
        × (r.global.n_uthread ≡ s.global.n_uthread)
  unfolding runtime_init init_global create_timewheel
  runtime_init-made s =
      let s0 : Rt = record s { global = init_global s.global } in
      let (t, looped, prepared) = init_loop_lem allocates 4 0 s0 in
      let (q, first, own, bound, owner, scheds, ps, same, ids, heap, current, number) =
        start_first_lem 0 0 (1 ∷ 2 ∷ 3 ∷ []) (1 ∷ 2 ∷ 3 ∷ []) t prepared.scheds prepared.ps in
      let q1 = called (Call.pthread_create 0) q in
      let q2 : Rt = record q1 { timer = record (q1.timer) { current = 0 } } in
      (
        called (Call.setitimer 10000) q2,
        rw (
          looped,
          first,
          syscall_lem (Call.pthread_create 0) q,
          syscall_lem (Call.setitimer 10000) q2,
        ),
        own,
        bound,
        owner,
        scheds,
        ps,
        λ k low.
            let (ready, sleeping, waiting) = prepared.idle k (omega arith) (omega arith) in
            let now = same k in
            (
              ap (λ w. w.0) now ∙ ready,
              ap (λ w. w.1.0) now ∙ sleeping,
              ap (λ w. w.1.1) now ∙ waiting,
            ),
        ids ∙ prepared.ids,
        refl,
        heap ∙ prepared.heap,
        current ∙ prepared.current 0,
        number ∙ prepared.number,
      )

  -- Where memory suffices, `_runtime_init` returns 0. The first scheduler belongs to the running
  -- thread, it and the first p point to each other, the other three of each are idle in order, no p
  -- has a uthread, the first id is 0, and the wheel stands at its first slot.
  pub runtime_init_lem :
      (s : Rt)
      → (r : Rt) × (runtime_init s ≡ ok 0 r)
        × (r.tls ≡ some 0)
        × ((r.global.all_sched 0).p ≡ some 0)
        × ((r.global.all_p 0).sched ≡ some 0)
        × (r.global.sched_idle ≡ 1 ∷ 2 ∷ 3 ∷ [])
        × (r.global.p_idle ≡ 1 ∷ 2 ∷ 3 ∷ [])
        × ((k : ℕ) → k < 4 → IsIdle (r.global.all_p k))
        × (r.global.next_ut_id ≡ 0)
        × (r.timer.current ≡ 0)
  runtime_init_lem s =
      let (r, done, own, bound, owner, scheds, ps, idle, ids, current, _, _, _) =
        runtime_init-made s in
      (r, done, own, bound, owner, scheds, ps, idle, ids, current)
