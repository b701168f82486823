-- ===== src/Create/Made.antt =====
-- What `uthread_create` makes once the runtime is there.
use uthread.Base.{
  ℕ, ◌+◌, ◌%◌, ◌^◌, ◌≡◌, refl, ap, ◌∙◌, Option, some, none, false, List, [], ◌∷◌, ◌++◌, pos,
  minus_one, update, Bool-cases, inl, inr, if◌then◌else◌, ◌==◌,
}
use uthread.Status.{bit}
use uthread.Status.St
use uthread.Types.{Ptr, Uthread, GlobalData, zero_uthread, stack_bytes}
use uthread.Machine.{
  Rt, ok, Call, live, freed, Env, Cell, syscall_pos, store_live, free_live, update_self, deref-some,
}
use uthread.Create.{calloc_uthread, create_on, is_null, next_id}
use uthread.Create.Ids.{take_id_lem}
use uthread.Resume.Leave.{Mutex}

-- the uthread that `uthread_create` makes
abbrev pub made : ℕ → ℕ → Option ℕ → ℕ → ℕ → Uthread
made id stack home func arg = record zero_uthread {
  id = id;
  stack = stack;
  stack_size = stack_bytes;
  func = func;
  arg = arg;
  status = bit St.new;
  p = home;
  fd_wait = minus_one;
  is_wating_yield_signal = 1;
}

-- one uthread more, the next id taken
abbrev pub counted : GlobalData → GlobalData
counted g = record g {
  n_uthread = (g.n_uthread + 1) % 2 ^ 32;
  bitmap_ut = update g.bitmap_ut g.next_ut_id 1;
  next_ut_id = next_id g.next_ut_id;
}

-- `a` last in the ready queue of p `j`
abbrev pub enqueued : ℕ → Ptr → GlobalData → GlobalData
enqueued j a g = record g {
  all_p = update g.all_p j (record (g.all_p j) { ready = (g.all_p j).ready ++ (a ∷ []) });
}

-- the calls up to the allocation of the stack
abbrev pub locked : List Call → List Call
locked tr = Call.mutex_unlock ∷ Call.mutex_lock ∷ Call.calloc ∷ tr

module _ ⦃e : Env⦄ where
  pub calloc_uthread_lem :
      (a : Ptr) (s : Rt)
      → e.reply s.trace Call.calloc ≡ pos a
      → is_null (pos a) ≡ false
      → calloc_uthread s
        ≡ ok
            (some a)
            (record s { heap = update s.heap a (live zero_uthread); trace = Call.calloc ∷ s.trace })
  unfolding calloc_uthread
  calloc_uthread_lem a s answer there = rw (syscall_pos Call.calloc a s answer, there)

module _ ⦃e : Env⦄ (mutex : Mutex e) where
  -- all that the code does, for `create_on_lem`
  pub create_on-made :
      (i j func arg : ℕ) (a r : ℕ) (s : Rt)
      → (s.global.all_sched i).p ≡ some j
      → e.reply s.trace Call.calloc ≡ pos a
      → is_null (pos a) ≡ false
      → e.reply (locked s.trace) (Call.posix_memalign stack_bytes) ≡ pos r
      → is_null (pos r) ≡ false
      → (t : Rt) × (create_on i func arg s ≡ ok (pos 0, some a) t)
        × (t.heap a ≡ live (made s.global.next_ut_id r (some j) func arg))
        × (t.global ≡ enqueued j a (counted s.global))
        × ((b : Ptr)
            → t.heap b
              ≡ (if b == a then live (made s.global.next_ut_id r (some j) func arg) else s.heap b))
        × (t.tls ≡ s.tls)
  unfolding create_on
  create_on-made i j func arg a r s bound block there stack room =
      let s1 : Rt = record s {
        heap = update s.heap a (live zero_uthread);
        trace = Call.calloc ∷ s.trace;
      } in
      let id = s.global.next_ut_id in
      let h2 : Ptr → Cell = update s1.heap a (live (record zero_uthread { id = id })) in
      let s2 : Rt = record s {
        heap = h2;
        global = counted s.global;
        trace = Call.posix_memalign stack_bytes ∷ locked s.trace;
      } in
      let home = (s.global.all_sched i).p in
      let fill = λ (u : Uthread). record u {
        stack = r;
        stack_size = stack_bytes;
        status = bit St.new;
        func = func;
        arg = arg;
        is_main = 0;
        wakeup_time_usec = 0;
        ut_joined = none;
        p = home;
        fd_wait = minus_one;
        is_wating_yield_signal = 1;
      } in
      let h3 : Ptr → Cell = update h2 a (live (made id r home func arg)) in
      (
        record s2 { heap = h3; global = enqueued j a (counted s.global) },
        rw (calloc_uthread_lem a s block there) (
            rw (take_id_lem mutex a s1 zero_uthread (update_self s.heap a (live zero_uthread))) (
              rw
                (
                  syscall_pos (Call.posix_memalign stack_bytes) r
                      (record s2 { trace = locked s.trace }) stack,
                  room,
                )
                rw
                (
                  store_live a s2 fill
                      (update_self s1.heap a (live (record zero_uthread { id = id }))),
                  deref-some home (record s2 { heap = h3 }) bound,
                ))),
        update_self h2 a (live (made id r home func arg))
            ∙ ap (λ o. live (made id r o func arg)) bound,
        refl,
        λ b. elim (Bool-cases (b == a)) [ inl hit ↦ rw (hit, bound) | inr miss ↦ rw miss ],
        refl,
      )

  -- When both allocations succeed, `uthread_create` on scheduler `i` with p `j` returns 0 and a
  -- uthread whose block holds its function, its argument, its stack and the next id, marked new; it
  -- stands last in the ready queue of `j`, and one uthread more is counted.
  pub create_on_lem :
      (i j func arg : ℕ) (a r : ℕ) (s : Rt)
      → (s.global.all_sched i).p ≡ some j
      → e.reply s.trace Call.calloc ≡ pos a
      → is_null (pos a) ≡ false
      → e.reply (locked s.trace) (Call.posix_memalign stack_bytes) ≡ pos r
      → is_null (pos r) ≡ false
      → (t : Rt) × (create_on i func arg s ≡ ok (pos 0, some a) t)
        × (t.heap a ≡ live (made s.global.next_ut_id r (some j) func arg))
        × (t.global ≡ enqueued j a (counted s.global))
  create_on_lem i j func arg a r s bound block there stack room =
      let (t, done, made', global, _, _) =
        create_on-made i j func arg a r s bound block there stack room in
      (t, done, made', global)

  -- the same, for `create_on_no_stack`
  pub create_on_unmade :
      (i func arg : ℕ) (a : ℕ) (s : Rt)
      → e.reply s.trace Call.calloc ≡ pos a
      → is_null (pos a) ≡ false
      → e.reply (locked s.trace) (Call.posix_memalign stack_bytes) ≡ pos 0
      → (t : Rt) × (create_on i func arg s ≡ ok (minus_one, none) t)
        × (t.heap a ≡ freed (record zero_uthread { id = s.global.next_ut_id }))
        × (t.global ≡ counted s.global)
        × ((b : Ptr)
            → t.heap b ≡ (
                if b == a
                then freed (record zero_uthread { id = s.global.next_ut_id })
                else s.heap b))
        × (t.tls ≡ s.tls)
  unfolding create_on
  create_on_unmade i func arg a s block there full =
      let s1 : Rt = record s {
        heap = update s.heap a (live zero_uthread);
        trace = Call.calloc ∷ s.trace;
      } in
      let u : Uthread = record zero_uthread { id = s.global.next_ut_id } in
      let h2 : Ptr → Cell = update s1.heap a (live u) in
      let s2 : Rt = record s {
        heap = h2;
        global = counted s.global;
        trace = Call.posix_memalign stack_bytes ∷ locked s.trace;
      } in
      (
        record s2 { heap = update h2 a (freed u) },
        rw (calloc_uthread_lem a s block there) (
            rw (take_id_lem mutex a s1 zero_uthread (update_self s.heap a (live zero_uthread))) (
              rw (
                syscall_pos (Call.posix_memalign stack_bytes) 0
                    (record s2 { trace = locked s.trace }) full,
                free_live a s2 (update_self s1.heap a (live u)),
              ))),
        update_self h2 a (freed u),
        refl,
        λ b. elim (Bool-cases (b == a)) [ inl hit ↦ rw hit | inr miss ↦ rw miss ],
        refl,
      )

  -- When the stack cannot be allocated, `uthread_create` on a scheduler returns -1 and frees the
  -- block, but the uthread stays counted and its id stays taken.
  pub create_on_no_stack :
      (i func arg : ℕ) (a : ℕ) (s : Rt)
      → e.reply s.trace Call.calloc ≡ pos a
      → is_null (pos a) ≡ false
      → e.reply (locked s.trace) (Call.posix_memalign stack_bytes) ≡ pos 0
      → (t : Rt) × (create_on i func arg s ≡ ok (minus_one, none) t)
        × (t.heap a ≡ freed (record zero_uthread { id = s.global.next_ut_id }))
        × (t.global ≡ counted s.global)
  create_on_no_stack i func arg a s block there full =
      let (t, done, freed', global, _, _) = create_on_unmade i func arg a s block there full in
      (t, done, freed', global)
