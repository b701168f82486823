-- ===== src/DiskIo.antt =====
-- uthread.c: blocking reads and writes, before which the p goes to another scheduler.
pub mod HandOver
pub mod Blocking
use uthread.Base.{
  ℕ, Option, none, some, Bool, true, false, not, ℤ, pos, pos_part, eqb_ℤ, if◌then◌else◌, List, [],
  ◌∷◌, is_empty,
}
use uthread.Types.{Ptr, P}
use uthread.Machine.{
  M, Rt, Result, ok, Call, Env, syscall, pure, raise, null_deref, ◌>>=◌, ◌>>◌, get, modify,
  modify_global, assert_that, deref, store, get_p, set_p, get_sched, set_sched, sched_get,
}
use uthread.Lifecycle.{cur_uthread}

module _ ⦃e : Env⦄ where
  -- the first idle scheduler takes the p and gets a thread; there may be none, which is not tested
  pub hand_over : ℕ → ℕ → List ℕ → M (Unit {0})
  hand_over i j [] = raise null_deref
  hand_over i j (new_sched ∷ idle) = do
    modify_global λ g. record g { sched_idle = idle }
    set_sched new_sched λ sc. record sc { p = some j }
    set_p j λ p. record p { sched = some new_sched }
    set_sched i λ sc. record sc { p = none }
    r ← syscall (Call.pthread_create new_sched)
    assert_that (eqb_ℤ r (pos 0))

  -- what both calls do before the system call
  pub detach_p : M (Unit {0})
  detach_p = do
    i ← sched_get
    cur ← cur_uthread
    ut ← deref cur
    store ut λ u. record u { is_wating_yield_signal = 0 }
    s ← get
    elim (s.global.all_sched i).p [
      | none ↦ pure tt
      | some j ↦
          if is_empty (s.global.all_p j).ready then pure tt else hand_over i j s.global.sched_idle
    ]

  pub pthread_disk_read : ℤ → ℕ → M ℤ
  pthread_disk_read fd nbytes = do detach_p; syscall (Call.disk_read fd nbytes)

  pub pthread_disk_write : ℤ → ℕ → M ℤ
  pthread_disk_write fd nbytes = do detach_p; syscall (Call.disk_write fd nbytes)

  -- `_sched_create_another`, which the new thread runs, up to its call of `_sched_run`
  unfoldable pub sched_create_another : ℕ → M (Unit {0})
  sched_create_another i = do
    sc ← get_sched i
    j ← deref sc.p
    tid ← syscall Call.pthread_self
    set_p j λ p. record p { tid = pos_part tid }
    modify λ s. record s { tls = some i }
