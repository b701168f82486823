-- ===== src/Join/Refused.antt =====
-- uthread.c: `uthread_join` when it does not wait.
use uthread.Base.{
  ℕ, ◌≡◌, ap, Option, some, true, not, ◌||◌, ◌==◌, minus_one, if◌then◌else◌, Bool-cases, inl, inr,
}
use uthread.Status.{has}
use uthread.Status.St
use uthread.Types.{Ptr, Uthread}
use uthread.Machine.{Rt, ok, live, Env, load_live, deref-some}
use uthread.Sleep.{is_none}
use uthread.Join.{uthread_join, join_from, edeadlk, einval}

-- what a running uthread `cur` sees of another one, `ut`
abbrev pub Sees : Rt → ℕ → Ptr → Ptr → Uthread → Type 0
Sees s i cur ut u =
    (s.tls ≡ some i) × ((s.global.all_sched i).cur_uthread ≡ some cur) × (s.heap ut ≡ live u)

-- the state with another `errno`
abbrev pub failed : ℕ → Rt → Rt
failed n s = record s { errno = n }

module _ ⦃e : Env⦄ (i : ℕ) (cur ut : Ptr) (retval : Option ℕ) (s : Rt) (u : Uthread)
    (sees : Sees s i cur ut u) where
  join_lem : uthread_join ut retval s ≡ join_from ut retval (some cur) s
  unfolding uthread_join
  join_lem = rw (deref-some s.tls s sees.0) (ap (λ o. join_from ut retval o s) sees.1)

  -- `uthread_join` returns -1 and changes nothing but `errno` in each case where it must not wait: on
  -- the calling uthread itself, with EDEADLK, and on another uthread that is detached or that some
  -- uthread has joined already, with EINVAL.
  pub join_refuses :
      ((ut == cur) || (has u.status St.detached || not (is_none u.ut_joined))) ≡ true
      → uthread_join ut retval s ≡ ok minus_one (failed (if ut == cur then edeadlk else einval) s)
  unfolding join_from
  join_refuses reason = elim (Bool-cases (ut == cur)) [
    | inl same ↦ rw join_lem (rw same)
    | inr other ↦ rw join_lem (
        rw (other, load_live ut s sees.2)
          (elim (Bool-cases (has u.status St.detached)) [
            | inl detached ↦ rw detached
            | inr joinable ↦
                let joined : not (is_none u.ut_joined) ≡ true = rw (other, joinable) at reason in
                rw (joinable, joined)
          ]))
  ]
