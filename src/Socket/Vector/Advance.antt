-- ===== src/Socket/Vector/Advance.antt =====
-- uthread_socket.c: the vector of `uthread_writev` as the bytes that it stands for.
use uthread.Base.{
  ℕ, zero, suc, ◌+◌, ◌-◌, ◌≤◌, ◌<◌, ◌≡◌, refl, ap, ◌∙◌, sym, true, ltb, ltb_ℤ, ℤ, pos, List, [],
  ◌∷◌, ◌++◌, arith, Bool-cases, inl, inr, drop, length,
}
use mathlib.Core.Path.{ap₂}
use uthread.Types.{Ptr}
use uthread.Machine.{Rt, ok, Env}
use uthread.Socket.Linked.{Linked}
use uthread.Socket.Vector.{advance, writev_loop, until_done}

-- the addresses of `n` bytes from `base` on, and of all bytes of a vector
unfoldable pub addresses : ℕ → ℕ → List ℕ
addresses base zero = []
addresses base (suc n) = base ∷ addresses (base + 1) n

unfoldable pub bytes : List (ℕ × ℕ) → List ℕ
bytes [] = []
bytes ((base, len) ∷ iov) = addresses base len ++ bytes iov

length-addresses : (base n : ℕ) → length (addresses base n) ≡ n
unfolding addresses
length-addresses base zero = refl
length-addresses base (suc n) = omega (arith, length-addresses (base + 1) n)

drop-append_le : (n : ℕ) (xs ys : List ℕ) → n ≤ length xs → drop n (xs ++ ys) ≡ drop n xs ++ ys
drop-append_le zero xs ys h = refl
drop-append_le (suc n) [] ys h = absurd (omega arith)
drop-append_le (suc n) (x ∷ xs) ys h = drop-append_le n xs ys (omega arith)

drop-append_ge :
    (n : ℕ) (xs ys : List ℕ) → length xs ≤ n → drop n (xs ++ ys) ≡ drop (n - length xs) ys
drop-append_ge n [] ys h = ap (λ k. drop k ys) (omega arith)
drop-append_ge zero (x ∷ xs) ys h = absurd (omega arith)
drop-append_ge (suc n) (x ∷ xs) ys h =
    drop-append_ge n xs ys (omega arith) ∙ ap (λ k. drop k ys) (omega arith)

drop-addresses :
    (base len n : ℕ) → n ≤ len → drop n (addresses base len) ≡ addresses (base + n) (len - n)
unfolding addresses
drop-addresses base len zero h = ap₂ addresses (omega arith) (omega arith)
drop-addresses base zero (suc n) h = absurd (omega arith)
drop-addresses base (suc len) (suc n) h =
    drop-addresses (base + 1) len n (omega arith) ∙ ap₂ addresses (omega arith) (omega arith)

-- `advance` leaves exactly the bytes that come after the first `n`, in their order and at their
-- addresses, for every `n`.
pub bytes-advance : (n : ℕ) (iov : List (ℕ × ℕ)) → bytes (advance n iov) ≡ drop n (bytes iov)
unfolding bytes advance
bytes-advance zero [] = refl
bytes-advance (suc n) [] = refl
bytes-advance n ((base, len) ∷ iov) = elim (Bool-cases (ltb 0 n)) [
  | inl some_written ↦ elim (Bool-cases (ltb n len)) [
    | inl inside ↦
        rw (some_written, inside)
          (sym (
            drop-append_le n (addresses base len) (bytes iov)
              (ground (arith, length-addresses base len))
            ∙ ap (λ l. l ++ bytes iov) (drop-addresses base len n (ground arith))))
    | inr past ↦
        rw (some_written, past)
          (bytes-advance (n - len) iov
            ∙ ap (λ k. drop (n - k) (bytes iov)) (sym (length-addresses base len))
            ∙ sym (
                drop-append_ge n (addresses base len) (bytes iov)
                  (ground (arith, length-addresses base len))))
  ]
  | inr none_written ↦ let is : n ≡ 0 = ground arith in rw (none_written, is)
]

module _ ⦃e : Env⦄ (c : Linked) where
  -- If a write takes all bytes of a vector that ends in parts of length zero, those parts are written
  -- next; that second write has nothing to transfer, so `uthread_writev` returns its 0 and not the
  -- number of bytes written.
  pub writev_zero_tail :
      (fuel : ℕ) (ut : Ptr) (fd : ℤ) (iov : List (ℕ × ℕ)) (n : ℕ) (z : ℕ × ℕ) (zs : List (ℕ × ℕ))
      (s t : Rt)
      → c.writev fd iov s ≡ ok (pos n) t
      → 0 < n
      → advance n iov ≡ z ∷ zs
      → bytes (z ∷ zs) ≡ []
      → ((l : List (ℕ × ℕ)) (q : Rt) → bytes l ≡ [] → (q' : Rt) × (c.writev fd l q ≡ ok (pos 0) q'))
      → (q : Rt) × (writev_loop c (suc (suc fuel)) ut fd iov 0 s ≡ ok (pos 0) q)
  unfolding writev_loop until_done
  writev_zero_tail fuel ut fd iov n z zs s t first some_written rest empty none_left =
      let (q, second) = none_left (z ∷ zs) t empty in
      let positive : ltb_ℤ (pos 0) (pos n) ≡ true = ground arith in
      (q, rw (first, positive, rest, second))
