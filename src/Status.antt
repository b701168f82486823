-- ===== src/Status.antt =====
-- The status word of a uthread: `enum uthread_st` used as a set of bits, and the macros `BIT` and
-- `CLEARBIT` of uthread_inner.h in the three ways the code uses them. The word is never negative
-- and its bits are read from the lowest up.
pub mod St
pub mod Laws
use uthread.Base.{ℕ, zero, suc, ◌+◌, ◌-◌, ◌*◌, ◌/◌, ◌%◌, ◌^◌, Bool, ◌==◌, if◌then◌else◌}

-- `enum uthread_event`, and its value as an `int`
pub data Event : Type 0 where
  rd wr : Event

abbrev pub event_code : Event → ℕ
event_code rd = 0
event_code wr = 1

-- `BIT(k)`
abbrev pub bit : ℕ → ℕ
bit k = 2 ^ k

-- `status & BIT(k)`, as a condition
unfoldable pub has : ℕ → ℕ → Bool
has s zero = s % 2 == 1
has s (suc k) = has (s / 2) k

-- `status |= BIT(k)`
unfoldable pub set_bit : ℕ → ℕ → ℕ
set_bit s zero = s / 2 * 2 + 1
set_bit s (suc k) = set_bit (s / 2) k * 2 + s % 2

-- `status &= CLEARBIT(k)`
unfoldable pub clear_bit : ℕ → ℕ → ℕ
clear_bit s zero = s / 2 * 2
clear_bit s (suc k) = clear_bit (s / 2) k * 2 + s % 2
