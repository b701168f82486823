-- ===== src/Turns/Ending.antt =====
-- What `uthread_exit` does, and what becomes of a uthread that has ended.
use uthread.Base.{
  ℕ, ◌≡◌, refl, ap, ◌∙◌, Option, none, some, true, [], ◌∷◌, ◌++◌, ◌==◌, ==_refl, if◌then◌else◌,
  update, arith, Bool-cases, inl, inr,
}
use uthread.Status.{has, set_bit}
use uthread.Status.St
use uthread.Types.{Ptr, Uthread, P, GlobalData}
use uthread.Machine.{
  Rt, ok, live, freed, Env, load_live, load_freed, store_live, update_self, deref-some,
}
use uthread.Lifecycle.{exit_enter, store_retval}
use uthread.Resume.{resume_leave, resume_exited, wake_joiner}
use uthread.Resume.Leave.{Mutex, idle_sched, forgotten, released, freeing, uthread_free_lem}
use uthread.Turns.Dropped.{roused, desched_sleep_lem}

pub store_retval_lem :
    (v : Option ℕ) (j : Option Ptr) (a : Option ℕ) (s : Rt)
    → (mem : ℕ → ℕ) × (store_retval v j a s ≡ ok tt (record s { memory = mem }))
store_retval_lem (some v) (some j) (some a) s = (update s.memory a v, refl)
store_retval_lem none j a s = (s.memory, refl)
store_retval_lem (some v) none a s = (s.memory, refl)
store_retval_lem (some v) (some j) none s = (s.memory, refl)

module _ ⦃e : Env⦄ where
  pub wake_some :
      (j : ℕ) (x : Ptr) (s : Rt) (w : Uthread)
      → s.heap x ≡ live w
      → has w.status St.sleeping ≡ true
      → w.p ≡ some j
      → (t : Rt) × (wake_joiner (some x) s ≡ ok tt t)
        × ((b : Ptr) → t.heap b ≡ (if b == x then live (roused w) else s.heap b))
        × (t.tls ≡ s.tls)
        × (t.global.all_sched ≡ s.global.all_sched)
        × (t.global.all_p j ≡ record (s.global.all_p j) {
          sleeping = e.rb_remove x (s.global.all_p j).sleeping;
          ready = (s.global.all_p j).ready ++ (x ∷ []);
        })
        × (t.global.n_uthread ≡ s.global.n_uthread)
  unfolding wake_joiner
  wake_some j x s w alive sleeps home =
      let (d, done, heap, own, global) = desched_sleep_lem j x s w alive sleeps home in
      let there : d.heap x ≡ live (roused w) = heap x ∙ rw (==_refl x) in
      let ps : d.global.all_p j
          ≡ record (s.global.all_p j) { sleeping = e.rb_remove x (s.global.all_p j).sleeping } =
        ap (λ (g : GlobalData). g.all_p j) global ∙ rw (==_refl j) in
      (
        record d {
          global = record (d.global) {
            all_p =
                update d.global.all_p j
                  (record (d.global.all_p j) { ready = (d.global.all_p j).ready ++ (x ∷ []) });
          };
        },
        rw (done, load_live x d there, deref-some w.p d home),
        heap,
        own,
        ap (λ (g : GlobalData). g.all_sched) global,
        rw (==_refl j) (ap (λ (p : P). record p { ready = p.ready ++ (x ∷ []) }) ps),
        ap (λ (g : GlobalData). g.n_uthread) global,
      )

  pub exit_enter_lem :
      (i : ℕ) (a : Ptr) (retval : Option ℕ) (s : Rt) (u : Uthread)
      → s.tls ≡ some i
      → (s.global.all_sched i).cur_uthread ≡ some a
      → s.heap a ≡ live u
      → (mem : ℕ → ℕ) × (exit_enter retval s
          ≡ ok tt (record s {
            heap = update s.heap a (live (record u { status = set_bit u.status St.exited }));
            memory = mem;
          }))
  unfolding exit_enter
  exit_enter_lem i a retval s u own cur alive =
      let mark = λ (v : Uthread). record v { status = set_bit v.status St.exited } in
      let s1 : Rt = record s { heap = update s.heap a (live (mark u)) } in
      let (mem, stored) = store_retval_lem retval u.ut_joined u.retval s1 in
      (
        mem,
        rw (deref-some s.tls s own) (
            rw
              (
                deref-some (s.global.all_sched i).cur_uthread s cur,
                store_live a s mark alive,
                load_live a s1 (update_self s.heap a (live (mark u))),
              )
              stored),
      )

  pub ended_lem :
      (mutex : Mutex e) (i : ℕ) (a : Ptr) (s n : Rt) (u : Uthread)
      → s.heap a ≡ live u
      → has u.status St.exited ≡ true
      → wake_joiner u.ut_joined (record s { global = idle_sched i s.global }) ≡ ok tt n
      → n.heap a ≡ live u
      → resume_leave i a s
        ≡ ok tt (record n {
          heap = update n.heap a (freed u);
          global = released u (forgotten n.global);
          trace = freeing u n.trace;
          freed_uses = a ∷ n.freed_uses;
        })
  unfolding resume_leave resume_exited
  ended_lem mutex i a s n u alive ended woken still =
      let idle : Rt = record s { global = idle_sched i s.global } in
      let freed' : Rt = record n {
        heap = update n.heap a (freed u);
        global = forgotten n.global;
        trace = freeing u n.trace;
      } in
      rw
        (
          load_live a idle alive,
          ended,
          load_live a idle alive,
          woken,
          uthread_free_lem mutex a n u still,
          load_freed a freed' (update_self n.heap a (freed u)),
        )
        (elim (Bool-cases (has u.status St.detached)) [
          | inl detached ↦ rw detached
          | inr joinable ↦ rw joinable
        ])

pub released_number : (u : Uthread) (g : GlobalData) → (released u g).n_uthread ≡ g.n_uthread
released_number u g = ground arith

pub released_ps : (u : Uthread) (g : GlobalData) → (released u g).all_p ≡ g.all_p
released_ps u g = ground arith

pub released_scheds : (u : Uthread) (g : GlobalData) → (released u g).all_sched ≡ g.all_sched
released_scheds u g = ground arith
