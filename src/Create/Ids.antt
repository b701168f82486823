-- ===== src/Create/Ids.antt =====
-- The ids of uthreads.
use uthread.Base.{◌+◌, ◌%◌, ◌^◌, ◌≡◌, ◌∷◌, update}
use uthread.Types.{Ptr, Uthread}
use uthread.Machine.{Rt, ok, Call, live, Env, syscall_zero, store_live}
use uthread.Create.{next_id, take_id}
use uthread.Resume.Leave.{Mutex}

abbrev numbered : Ptr → Rt → Uthread → Rt
numbered ut s u = record s {
  heap = update s.heap ut (live (record u { id = s.global.next_ut_id }));
  global = record (s.global) {
    n_uthread = (s.global.n_uthread + 1) % 2 ^ 32;
    bitmap_ut = update s.global.bitmap_ut s.global.next_ut_id 1;
    next_ut_id = next_id s.global.next_ut_id;
  };
  trace = Call.mutex_lock ∷ s.trace;
}

module _ ⦃e : Env⦄ (mutex : Mutex e) where
  -- The new uthread gets the next id, whose place in the bitmap is set; the count goes up by one, and
  -- the id after it is the next one. What the bitmap said of that id is not looked at.
  pub take_id_lem :
      (ut : Ptr) (s : Rt) (u : Uthread)
      → s.heap ut ≡ live u
      → let g = s.global in
        take_id ut s
        ≡ ok tt (record s {
          heap = update s.heap ut (live (record u { id = g.next_ut_id }));
          global = record g {
            n_uthread = (g.n_uthread + 1) % 2 ^ 32;
            bitmap_ut = update g.bitmap_ut g.next_ut_id 1;
            next_ut_id = next_id g.next_ut_id;
          };
          trace = Call.mutex_unlock ∷ Call.mutex_lock ∷ s.trace;
        })
  unfolding take_id
  take_id_lem ut s u alive =
      let locked : Rt = record s { trace = Call.mutex_lock ∷ s.trace } in
      let id = λ (v : Uthread). record v { id = s.global.next_ut_id } in
      let unlock = (mutex (Call.mutex_lock ∷ s.trace)).1 in
      rw (syscall_zero Call.mutex_lock s (mutex s.trace).0, store_live ut locked id alive)
        (rw (syscall_zero Call.mutex_unlock (numbered ut s u) unlock))
