-- ===== src/Sleep/Key.antt =====
-- uthread_sched.c: the macros that pack and unpack the key of the waiting tree.
use uthread.Base.{ℕ, ◌<◌, ◌≡◌, ◌^◌, ℤ, pos, negsuc, arith}
use uthread.Sleep.{fd_key, fd_event, fd_only}

-- `FD_ONLY` and `FD_EVENT` take apart what `FD_KEY` packs, for every descriptor, also a negative
-- one, and every event code of 32 bits.
pub fd_key_round_trip :
    (fd : ℤ) (e : ℕ) → e < 2 ^ 32 → (fd_only (fd_key fd e) ≡ fd) × (fd_event (fd_key fd e) ≡ e)
unfolding fd_key fd_event fd_only
fd_key_round_trip (pos fd) e h = ground arith
fd_key_round_trip (negsuc n) e h = ground arith
