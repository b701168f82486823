-- ===== src/Status/Laws.antt =====
-- The laws of the status word.
use mathlib.Core.Bool.{true, false}
use uthread.Base.{ℕ, zero, suc, ◌/◌, ◌≡◌, arith, ◌==◌, if◌then◌else◌, ap, ◌∙◌}
use uthread.Status.{has, set_bit, clear_bit}

set_bit-half : (s k : ℕ) → set_bit s (suc k) / 2 ≡ set_bit (s / 2) k
unfolding set_bit
set_bit-half s k = omega arith

clear_bit-half : (s k : ℕ) → clear_bit s (suc k) / 2 ≡ clear_bit (s / 2) k
unfolding clear_bit
clear_bit-half s k = omega arith

set_bit_zero-half : (s : ℕ) → set_bit s 0 / 2 ≡ s / 2
unfolding set_bit
set_bit_zero-half s = omega arith

clear_bit_zero-half : (s : ℕ) → clear_bit s 0 / 2 ≡ s / 2
unfolding clear_bit
clear_bit_zero-half s = omega arith

-- Setting bit `k` is seen at `k`, and every other bit keeps its value.
pub has-set_bit : (s k j : ℕ) → has (set_bit s k) j ≡ (if k == j then true else has s j)
unfolding has
has-set_bit s zero zero = unfold set_bit in ground arith
has-set_bit s zero (suc j) = ap (λ t. has t j) (set_bit_zero-half s) ∙ ground arith
has-set_bit s (suc k) zero = unfold set_bit in ground arith
has-set_bit s (suc k) (suc j) =
    ap (λ t. has t j) (set_bit-half s k) ∙ has-set_bit (s / 2) k j ∙ ground arith

-- Clearing bit `k` is seen at `k`, and every other bit keeps its value.
pub has-clear_bit : (s k j : ℕ) → has (clear_bit s k) j ≡ (if k == j then false else has s j)
unfolding has
has-clear_bit s zero zero = unfold clear_bit in ground arith
has-clear_bit s zero (suc j) = ap (λ t. has t j) (clear_bit_zero-half s) ∙ ground arith
has-clear_bit s (suc k) zero = unfold clear_bit in ground arith
has-clear_bit s (suc k) (suc j) =
    ap (λ t. has t j) (clear_bit-half s k) ∙ has-clear_bit (s / 2) k j ∙ ground arith
