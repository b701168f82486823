-- ===== src/Join.antt =====
-- uthread.c: `uthread_join`.
pub mod Refused
use uthread.Base.{
  ℕ, Option, none, some, Bool, true, false, not, ◌&&◌, ◌||◌, ◌==◌, ℤ, pos, minus_one, if◌then◌else◌,
  update,
}
use uthread.Status.{has}
use uthread.Status.St
use uthread.Types.{Ptr, Uthread}
use uthread.Machine.{
  M, Rt, Result, ok, Env, pure, ◌>>=◌, ◌>>◌, modify, modify_global, deref, load, store,
}
use uthread.Lifecycle.{cur_uthread}
use uthread.Sleep.{sched_sleep, is_none}

-- EDEADLK and EINVAL, with the numbers of Linux
abbrev pub edeadlk : ℕ
edeadlk = 35

abbrev pub einval : ℕ
einval = 22

abbrev pub fail_with : ℕ → M ℤ
fail_with n = do modify λ s. record s { errno = n }; pure minus_one

abbrev pub is_self : Ptr → Option Ptr → Bool
is_self ut none = false
is_self ut (some c) = ut == c

abbrev pub join_msec : ℕ
join_msec = 10000

-- what `uthread_join` notes at the other uthread before it waits
unfoldable pub join_mark : Ptr → Ptr → Option ℕ → M (Unit {0})
join_mark ut cur_ut retval = do
  store ut λ u. record u { ut_joined = some cur_ut }
  store ut λ u. record u { retval = retval }

module _ ⦃e : Env⦄ where
  -- the part of `uthread_join` that waits
  pub join_wait : Ptr → Ptr → Option ℕ → M ℤ
  join_wait ut cur_ut retval = do
    join_mark ut cur_ut retval
    sched_sleep cur_ut join_msec
    c ← load cur_ut
    if has c.status St.expired
        then (do
          store ut λ u. record u { ut_joined = none }
          store ut λ u. record u { retval = retval }
          pure (pos 1))
        else (do
          u ← load ut
          modify_global λ g. record g { bitmap_ut = update g.bitmap_ut u.id 0 }
          pure (pos 0))

  -- what `uthread_join` does once it knows the calling uthread
  pub join_from : Ptr → Option ℕ → Option Ptr → M ℤ
  join_from ut retval cur = if is_self ut cur then fail_with edeadlk else (do
    u ← load ut
    if has u.status St.detached then fail_with einval else (do
      if not (is_none u.ut_joined) then fail_with einval else (do
        if has u.status St.exited
            then (do
              modify_global λ g. record g { bitmap_ut = update g.bitmap_ut u.id 1 }
              pure (pos 0))
            else (do cur_ut ← deref cur; join_wait ut cur_ut retval))))

  -- `uthread_join`
  pub uthread_join : Ptr → Option ℕ → M ℤ
  uthread_join ut retval = do cur ← cur_uthread; join_from ut retval cur
