-- ===== src/DiskIo/Blocking.antt =====
-- Disk calls made while other uthreads are ready.
use uthread.Base.{
  ℕ, ◌≡◌, ◌≢◌, ap, ◌∙◌, Option, some, none, false, List, ◌∷◌, ℤ, update, is_empty, if◌then◌else◌,
}
use uthread.Types.{Ptr, Uthread}
use uthread.Machine.{M, Rt, ok, live, Call, Env, syscall, store_live, deref-some, pure}
use uthread.Lifecycle.{cur_uthread}
use uthread.DiskIo.{detach_p, hand_over, pthread_disk_read, pthread_disk_write}
use uthread.DiskIo.HandOver.{Threads, hand_over_moves}

-- The uthread `cur` runs on scheduler `i`.
abbrev pub RunsOn : Rt → ℕ → Ptr → Uthread → Type 0
RunsOn s i cur u =
    (s.tls ≡ some i) × ((s.global.all_sched i).cur_uthread ≡ some cur) × (s.heap cur ≡ live u)

module _ ⦃e : Env⦄ (i : ℕ) (cur : Ptr) (u : Uthread) (s : Rt) (runs : RunsOn s i cur u) where
  cur_uthread_lem : cur_uthread s ≡ ok (some cur) s
  cur_uthread_lem = rw (deref-some s.tls s runs.0) (ap (λ o. ok o s) runs.1)

  -- the caller's mark is cleared
  abbrev marked : Rt
  marked = record s { heap = update s.heap cur (live (record u { is_wating_yield_signal = 0 })) }

  detach_p_lem :
      (j : ℕ)
      → (s.global.all_sched i).p ≡ some j
      → detach_p s
        ≡ (if is_empty (s.global.all_p j).ready then pure tt else hand_over i j s.global.sched_idle)
            marked
  unfolding detach_p
  detach_p_lem j bound =
      let mark = λ (v : Uthread). record v { is_wating_yield_signal = 0 } in
      let choose : Option ℕ → M (Unit {0}) = λ o. elim o [
        | none ↦ pure tt
        | some k ↦
            if is_empty (s.global.all_p k).ready then pure tt else hand_over i k s.global.sched_idle
      ] in
      rw (deref-some s.tls s runs.0)
        (rw cur_uthread_lem (rw (store_live cur s mark runs.2) (ap (λ o. choose o marked) bound)))

  -- A uthread that makes a disk call while others are ready makes it after the p has moved to the
  -- first idle scheduler: the two point to each other, the caller's scheduler has no p, the others
  -- are still ready in their order.
  pub disk_call_moves :
      (threads : Threads e) (j n : ℕ) (idle : List ℕ) (fd : ℤ) (bytes : ℕ)
      → (s.global.all_sched i).p ≡ some j
      → is_empty (s.global.all_p j).ready ≡ false
      → s.global.sched_idle ≡ n ∷ idle
      → i ≢ n
      → (t : Rt) × (pthread_disk_read fd bytes s ≡ syscall (Call.disk_read fd bytes) t)
        × (pthread_disk_write fd bytes s ≡ syscall (Call.disk_write fd bytes) t)
        × ((t.global.all_sched n).p ≡ some j)
        × ((t.global.all_p j).sched ≡ some n)
        × ((t.global.all_sched i).p ≡ none)
        × ((t.global.all_p j).ready ≡ (s.global.all_p j).ready)
        × (t.global.sched_idle ≡ idle)
  unfolding pthread_disk_read pthread_disk_write
  disk_call_moves threads j n idle fd bytes bound others first apart =
      let (t, moved, taken, owner, left, ready, rest, calls) =
        hand_over_moves threads i j n idle marked apart in
      let done : detach_p s ≡ ok tt t =
        detach_p_lem j bound ∙ rw others (ap (λ l. hand_over i j l marked) first) ∙ moved in
      (t, rw done, rw done, taken, owner, left, ready, rest)
