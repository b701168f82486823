-- ===== src/Socket/Transfer.antt =====
-- What `read_exact`, `recv_exact`, `write` and `send` report.
use uthread.Base.{
  ℕ, zero, suc, ◌+◌, ◌-◌, ◌≤◌, ◌≡◌, Bool, ◌&&◌, ◌==◌, eqb_ℤ, ℤ, pos, pos_part, minus_one,
  if◌then◌else◌, inl, inr, arith, Bool-cases,
}
use uthread.Status.{Event}
use uthread.Status.St
use uthread.Types.{Ptr}
use uthread.Machine.{M, Rt, ok, Env, pure, ◌>>=◌, ◌>>◌, bind-eq-ok}
use uthread.Sleep.{register_event}
use uthread.Socket.Linked.{minus_two, would_block, status_has}
use uthread.Socket.Exact.{exact_step, exact_loop}

-- A transfer moves no more bytes than it is asked for.
abbrev pub Bounded : (ℕ → ℕ → M ℤ) → Type 0
Bounded call = (off n : ℕ) (s t : Rt) (r : ℤ) → call off n s ≡ ok r t → pos_part r ≤ n

-- An error, or a number of bytes from `done` to `length`.
pub data Reports (done length : ℕ) : ℤ → Type 0 where
  failed : {r : ℤ} → r ≡ minus_one → Reports done length r
  timed_out : {r : ℤ} → r ≡ minus_two → Reports done length r
  moved : {r : ℤ} (k : ℕ) → r ≡ pos k → done ≤ k → k ≤ length → Reports done length r

Reports-weaken :
    {done more length : ℕ} {r : ℤ} → done ≤ more → Reports more length r → Reports done length r
Reports-weaken h (failed is) = failed is
Reports-weaken h (timed_out is) = timed_out is
Reports-weaken h (moved k is low high) = moved k is (omega arith) high

ok-value : {a b : ℤ} {s t : Rt} → ok a s ≡ ok b t → b ≡ a
ok-value h = cc

module _ ⦃e : Env⦄ where
  wait_reports :
      (check : Bool) (ev : Event) (ut : Ptr) (fd : ℤ) (done length : ℕ) (next : ℕ → M ℤ) (s t : Rt)
      (r : ℤ)
      → done ≤ length
      → ((k : ℕ) (s t : Rt) (r : ℤ) → k ≤ length → next k s ≡ ok r t → Reports k length r)
      → (do
        register_event ut fd ev 0
        late ← status_has ut St.expired
        if check && late then pure minus_two else next done)
          s
        ≡ ok r t
      → Reports done length r
  wait_reports check ev ut fd done length next s t r fits rest h =
      let (_, m, waited, h') = bind-eq-ok (register_event ut fd ev 0 s) _ h in
      let (late, m', asked, h'') = bind-eq-ok (status_has ut St.expired m) _ h' in
      elim (Bool-cases (check && late)) [
        | inl stop ↦ timed_out (ok-value (rw stop at h''))
        | inr go ↦ rest done m' t r fits (rw go at h'')
      ]

  step_reports :
      (check : Bool) (ev : Event) (ut : Ptr) (fd ret : ℤ) (done length : ℕ) (next : ℕ → M ℤ)
      (s t : Rt) (r : ℤ)
      → done + pos_part ret ≤ length
      → ((k : ℕ) (s t : Rt) (r : ℤ) → k ≤ length → next k s ≡ ok r t → Reports k length r)
      → exact_step check ev ut fd ret done next s ≡ ok r t
      → Reports done length r
  unfolding exact_step
  step_reports check ev ut fd ret done length next s t r fits rest h =
      elim (Bool-cases (eqb_ℤ ret (pos 0))) [
        | inl closed ↦ moved done (ok-value (rw closed at h)) (omega arith) (omega arith)
        | inr open_end ↦ elim (Bool-cases (would_block ret s)) [
          | inl blocked ↦
              let waits : (do
                register_event ut fd ev 0
                late ← status_has ut St.expired
                if check && late then pure minus_two else next done)
                    s
                  ≡ ok r t =
                rw (open_end, blocked) at h in
              wait_reports check ev ut fd done length next s t r (omega arith) rest waits
          | inr through ↦ elim (Bool-cases (eqb_ℤ ret minus_one)) [
            | inl error ↦ failed (ok-value (rw (open_end, through, error) at h))
            | inr some_moved ↦
                Reports-weaken (omega arith)
                  (rest (done + pos_part ret) s t r fits (rw (open_end, through, some_moved) at h))
          ]
        ]
      ]

  -- Where the call moves no more bytes than it is asked for, every result that the loop of the exact
  -- transfers returns is -1, or -2, or the number of bytes moved, which is at least the number
  -- already done and at most the whole length.
  pub exact_loop_reports :
      (fuel : ℕ) (check : Bool) (ev : Event) (call : ℕ → ℕ → M ℤ) (ut : Ptr) (fd : ℤ)
      (length done : ℕ) (s t : Rt) (r : ℤ)
      → Bounded call
      → done ≤ length
      → exact_loop fuel check ev call ut fd length done s ≡ ok r t
      → Reports done length r
  unfolding exact_loop
  exact_loop_reports zero check ev call ut fd length done s t r bound fits h = cc
  exact_loop_reports (suc fuel) check ev call ut fd length done s t r bound fits h =
      elim (Bool-cases (done == length)) [
        | inl all ↦ moved done (ok-value (rw all at h)) (omega arith) (omega arith)
        | inr part ↦
            let (eof, m, asked, h') = bind-eq-ok (status_has ut St.fdeof s) _ (rw part at h) in
            elim (Bool-cases eof) [
              | inl closed ↦ failed (ok-value (rw closed at h'))
              | inr open_end ↦
                  let (ret, m', called, h'') =
                    bind-eq-ok (call done (length - done) m) _ (rw open_end at h') in
                  step_reports check ev ut fd ret done length
                    (exact_loop fuel check ev call ut fd length) m' t r
                    (omega (arith, bound done (length - done) m m' ret called))
                    (λ k s' t' r' fits' h3.
                      exact_loop_reports fuel check ev call ut fd length k s' t' r' bound fits' h3)
                    h''
            ]
      ]
