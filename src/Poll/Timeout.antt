-- ===== src/Poll/Timeout.antt =====
-- How long `_uthread_poll` waits.
use uthread.Base.{
  ℕ, ◌+◌, ◌-◌, ◌*◌, ◌/◌, ◌%◌, ◌^◌, ◌<◌, ◌≡◌, ap, some, true, ltb, if◌then◌else◌, arith, List, ◌∷◌,
  Bool-cases, inl, inr,
}
use uthread.Types.{Ptr, Uthread}
use uthread.Machine.{Rt, ok, Call, live, Env, get_usec_now, load_live}
use uthread.Poll.{timespec_of, msec_of, time_until}

-- The `timespec` of a wait is in normal form, and as milliseconds it is the wait rounded down.
msec_of-timespec_of :
    (usecs : ℕ)
    → ((timespec_of usecs).tv_nsec < 1000000000) × (msec_of (timespec_of usecs) ≡ usecs / 1000)
unfolding timespec_of msec_of
msec_of-timespec_of usecs = ground arith

-- the time, in microseconds, that the clock gives after the calls `tr`
abbrev pub reading : Env → List Call → ℕ
reading e tr = let (sec, usec) = e.clock tr in (sec * 1000000 + usec) % 2 ^ 64

abbrev pub read_twice : Rt → Rt
read_twice s = record s { trace = Call.gettimeofday ∷ Call.gettimeofday ∷ s.trace }

module _ ⦃e : Env⦄ where
  -- The wait for a sleeper that is not due at the first reading of the clock. If it is not due at the
  -- second reading either, the wait is what is left; if its time passes between the two readings, the
  -- unsigned difference wraps round.
  pub time_until_lem :
      (ut : Ptr) (s : Rt) (u : Uthread)
      → s.heap ut ≡ live u
      → u.wakeup_time_usec < 2 ^ 64
      → reading e s.trace < u.wakeup_time_usec
      → let later = reading e (Call.gettimeofday ∷ s.trace) in
        time_until (some ut) s
        ≡ ok
            (if ltb u.wakeup_time_usec later
              then 2 ^ 64 - (later - u.wakeup_time_usec)
              else u.wakeup_time_usec - later)
            (read_twice s)
  unfolding time_until get_usec_now
  time_until_lem ut s u alive fits ahead =
      let first : ltb (reading e s.trace) u.wakeup_time_usec ≡ true = ground arith in
      rw (load_live ut s alive, first)
        (ap (λ n. ok n (read_twice s))
          (elim (Bool-cases (ltb u.wakeup_time_usec (reading e (Call.gettimeofday ∷ s.trace)))) [
            | inl passed ↦ rw passed (ground arith)
            | inr left ↦ rw left (ground arith)
          ]))
