-- ===== src/Create/Started.antt =====
-- What `_runtime_init` leaves behind.
use mathlib.Core.List.{append_assoc, append-nil}
use uthread.Base.{
  ℕ, zero, suc, ◌+◌, ◌≤◌, ◌<◌, ◌≡◌, refl, ap, ◌∙◌, true, false, List, [], ◌∷◌, ◌++◌, ◌==◌, ==_refl,
  if◌then◌else◌, arith, sym, eqb_ℤ, minus_one, pos_part, Bool-cases, inl, inr,
}
use uthread.Types.{P, GlobalData}
use uthread.Machine.{Rt, ok, Call, Env, syscall}
use uthread.Create.{init_loop, init_sched, init_p, is_null}

-- No call of `calloc` returns NULL.
abbrev pub Allocates : Env → Type 0
Allocates e = (tr : List Call) → is_null (e.reply tr Call.calloc) ≡ false

-- the numbers from `i` on, `n` of them
abbrev pub range : ℕ → ℕ → List ℕ
range i zero = []
range i (suc n) = i ∷ range (i + 1) n

-- a p without uthreads
abbrev pub IsIdle : P → Type 0
IsIdle p = (p.ready ≡ []) × (p.sleeping ≡ []) × (p.waiting ≡ [])

-- What `n` rounds of the loop, from scheduler and p `i` on, make of `s`.
pub record Prepared (i n : ℕ) (s t : Rt) : Type 0 where
  pub scheds : t.global.sched_idle ≡ s.global.sched_idle ++ range i n
  pub ps : t.global.p_idle ≡ s.global.p_idle ++ range i n
  pub idle : (k : ℕ) → i ≤ k → k < i + n → IsIdle (t.global.all_p k)
  pub before : (k : ℕ) → k < i → t.global.all_p k ≡ s.global.all_p k
  pub ids : t.global.next_ut_id ≡ s.global.next_ut_id
  pub heap : t.heap ≡ s.heap
  pub number : t.global.n_uthread ≡ s.global.n_uthread
  pub current : (k : ℕ) → (t.global.all_sched k).cur_uthread ≡ (s.global.all_sched k).cur_uthread

module _ ⦃e : Env⦄ where
  -- the state after a call
  abbrev pub called : Call → Rt → Rt
  called c s = record s {
    errno = if eqb_ℤ (e.reply s.trace c) minus_one then e.errno_of s.trace c else s.errno;
    trace = c ∷ s.trace;
  }

  pub syscall_lem : (c : Call) (s : Rt) → syscall c s ≡ ok (e.reply s.trace c) (called c s)
  unfolding syscall
  syscall_lem c s = refl

apart :
    (k i tid stack : ℕ) (g : GlobalData)
    → k < i
    → (init_p i tid (init_sched i stack g)).all_p k ≡ g.all_p k
unfolding init_p init_sched
apart k i tid stack g h = let other : (k == i) ≡ false = ground arith in rw other

fresh : (i tid stack : ℕ) (g : GlobalData) → IsIdle ((init_p i tid (init_sched i stack g)).all_p i)
unfolding init_p init_sched
fresh i tid stack g = rw (==_refl i) (refl, refl, refl)

cur_kept :
    (k i tid stack : ℕ) (g : GlobalData)
    → ((init_p i tid (init_sched i stack g)).all_sched k).cur_uthread ≡ (g.all_sched k).cur_uthread
unfolding init_p init_sched
cur_kept k i tid stack g = elim (Bool-cases (k == i)) [
  | inl hit ↦ let is : k ≡ i = ground arith in rw (hit, is)
  | inr miss ↦ rw miss
]

module _ ⦃e : Env⦄ (allocates : Allocates e) where
  init_round :
      (i : ℕ) (s : Rt)
      → (m : Rt) × (stack : ℕ) × (tid : ℕ) × ((n : ℕ)
          → init_loop (suc n) i s ≡ init_loop n (i + 1) m)
        × (m.global ≡ init_p i tid (init_sched i stack s.global))
        × (m.heap ≡ s.heap)
  unfolding init_loop
  init_round i s =
      let s1 = called Call.calloc s in
      let stack = pos_part (e.reply s.trace Call.calloc) in
      let s2 : Rt = record s1 { global = init_sched i stack s.global } in
      let s3 = called Call.pthread_self s2 in
      let tid = pos_part (e.reply s2.trace Call.pthread_self) in
      (
        record s3 { global = init_p i tid (init_sched i stack s.global) },
        stack,
        tid,
        λ n. rw (syscall_lem Call.calloc s, allocates s.trace, syscall_lem Call.pthread_self s2),
        refl,
        refl,
      )

  pub init_loop_lem :
      (n i : ℕ) (s : Rt) → (t : Rt) × (init_loop n i s ≡ ok true t) × Prepared i n s t
  init_loop_lem zero i s = (
    s,
    (unfold init_loop in refl),
    record {
      scheds = sym (append-nil s.global.sched_idle);
      ps = sym (append-nil s.global.p_idle);
      idle = λ k low high. absurd (omega arith);
      before = λ k low. refl;
      ids = refl;
      heap = refl;
      number = refl;
      current = λ k. refl;
    },
  )
  init_loop_lem (suc n) i s =
      let (m, stack, tid, round, global, heap) = init_round i s in
      let (t, done, prepared) = init_loop_lem n (i + 1) m in
      (
        t,
        round n ∙ done,
        record {
          scheds =
              (prepared.scheds
                ∙ ap (λ (g : GlobalData). g.sched_idle ++ range (i + 1) n) global
                ∙ unfold init_p init_sched in
                  append_assoc s.global.sched_idle (i ∷ []) (range (i + 1) n));
          ps =
              (prepared.ps
                ∙ ap (λ (g : GlobalData). g.p_idle ++ range (i + 1) n) global
                ∙ unfold init_p init_sched in
                  append_assoc s.global.p_idle (i ∷ []) (range (i + 1) n));
          idle = λ k low high. elim (Bool-cases (k == i)) [
            | inl here ↦
                let is : k ≡ i = ground arith in
                let made : t.global.all_p k ≡ (init_p i tid (init_sched i stack s.global)).all_p k =
                  prepared.before k (omega arith) ∙ ap (λ (g : GlobalData). g.all_p k) global in
                rw (made, is) (fresh i tid stack s.global)
            | inr further ↦ prepared.idle k (ground arith) (omega arith)
          ];
          before = λ k low.
              (prepared.before k (omega arith)
                ∙ ap (λ (g : GlobalData). g.all_p k) global
                ∙ apart k i tid stack s.global low);
          ids =
              (prepared.ids
                ∙ ap (λ (g : GlobalData). g.next_ut_id) global
                ∙ unfold init_p init_sched in refl);
          heap = prepared.heap ∙ heap;
          number =
              (prepared.number
                ∙ ap (λ (g : GlobalData). g.n_uthread) global
                ∙ unfold init_p init_sched in refl);
          current = λ k.
              prepared.current k
              ∙ ap (λ (g : GlobalData). (g.all_sched k).cur_uthread) global
              ∙ cur_kept k i tid stack s.global;
        },
      )
