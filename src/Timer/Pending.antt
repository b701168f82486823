-- ===== src/Timer/Pending.antt =====
-- The wheel against the timers that are still to go off, by how many ticks they have left.
use uthread.Base.{
  ℕ, zero, suc, ◌+◌, ◌-◌, ◌/◌, ◌%◌, ◌<◌, ◌≡◌, refl, ap, sym, ◌∙◌, List, [], ◌∷◌, ◌==◌, ltb, ◌&&◌,
  false, if◌then◌else◌, arith, Bool-cases, inl, inr, update,
}
use uthread.Types.{Ptr, TimerNode, TimerWheel}
use uthread.Machine.{
  M, Rt, ok, Env, pure, ◌>>◌, bind_result, bind_assoc, bind_ext, bind-eq-ok, syscall, load,
}
use uthread.Timer.{walk, tick, add_timer, signal}

-- nodes of uthread `u` with so many rotations left
pub count_nodes : Ptr → ℕ → List TimerNode → ℕ
count_nodes u r [] = 0
count_nodes u r (n ∷ ns) = (if (n.ut == u) && (n.rotation == r) then 1 else 0) + count_nodes u r ns

-- how many timers of `u` go off in the tick after the next `k` ticks
pub pending : TimerWheel → Ptr → ℕ → ℕ
pending w u k = count_nodes u (k / 10) (w.slot ((w.current + k) % 10))

-- one tick later, in the slot that the tick visits
pub age : List TimerNode → List TimerNode
age [] = []
age (n ∷ ns) = if ltb 0 n.rotation then record n { rotation = n.rotation - 1 } ∷ age ns else age ns

count_nodes-age :
    (u : Ptr) (r : ℕ) (ns : List TimerNode) → count_nodes u r (age ns) ≡ count_nodes u (suc r) ns
unfolding count_nodes age
count_nodes-age u r [] = refl
count_nodes-age u r (n ∷ ns) = ground (arith, count_nodes-age u r ns)

module _ ⦃e : Env⦄ where
  -- the signals that `walk` sends
  unfoldable pub signal_due : List TimerNode → M (Unit {0})
  signal_due [] = pure tt
  signal_due (n ∷ ns) =
      let rest = signal_due ns in if ltb 0 n.rotation then rest else (do signal n; rest)

  pub walk-age :
      (ns : List TimerNode) (s : Rt)
      → walk ns s ≡ bind_result (signal_due ns s) (λ _. pure (age ns))
  unfolding walk signal_due age
  walk-age [] s = refl
  walk-age (n ∷ ns) s = elim (Bool-cases (ltb 0 n.rotation)) [
    | inl later ↦ rw later (rw (walk-age ns s) (bind_assoc (signal_due ns s) _ _))
    | inr due ↦ rw due (
        bind_ext (signal n s) _ _ (λ _ t. walk-age ns t)
        ∙ sym (bind_assoc (signal n s) (λ _. signal_due ns) (λ _. pure (age ns))))
  ]

  signal-timer : (n : TimerNode) (s t : Rt) → signal n s ≡ ok tt t → t.timer ≡ s.timer
  unfolding signal load syscall
  signal-timer n s t h = ground arith

  signal_due-timer :
      (ns : List TimerNode) (s t : Rt) → signal_due ns s ≡ ok tt t → t.timer ≡ s.timer
  unfolding signal_due
  signal_due-timer [] s t h = cc
  signal_due-timer (n ∷ ns) s t h = elim (Bool-cases (ltb 0 n.rotation)) [
    | inl later ↦ signal_due-timer ns s t (rw later at h)
    | inr due ↦
        let (_, m, first, rest) = bind-eq-ok (signal n s) (λ _. signal_due ns) (rw due at h) in
        signal_due-timer ns m t rest ∙ signal-timer n s m first
  ]

  -- the state in which `tick` leaves the wheel
  tick-timer :
      (s t : Rt)
      → tick s ≡ ok tt t
      → t.timer ≡ record {
        slot = update s.timer.slot s.timer.current (age (s.timer.slot s.timer.current));
        current = (s.timer.current + 1) % 10;
      }
  unfolding tick
  tick-timer s t h =
      let nodes = s.timer.slot s.timer.current in
      let walked = rw (walk-age nodes s, bind_assoc (signal_due nodes s)) at h in
      let (_, m, first, rest) = bind-eq-ok (signal_due nodes s) _ walked in
      ground (arith, rest, signal_due-timer nodes s m first)

pending-aged :
    (w : TimerWheel) (u : Ptr) (k : ℕ)
    → w.current < 10
    → pending
        (record {
          slot = update w.slot w.current (age (w.slot w.current));
          current = (w.current + 1) % 10;
        })
        u
        k
      ≡ pending w u (k + 1)
unfolding pending
pending-aged w u k h = elim (Bool-cases (((w.current + 1) % 10 + k) % 10 == w.current)) [
  | inl hit ↦
      let at : (w.current + (k + 1)) % 10 ≡ w.current = ground arith in
      let turn : (k + 1) / 10 ≡ suc (k / 10) = ground arith in
      rw (hit, at, turn) (count_nodes-age u (k / 10) (w.slot w.current))
  | inr miss ↦
      let at : (w.current + (k + 1)) % 10 ≡ ((w.current + 1) % 10 + k) % 10 = omega arith in
      let turn : (k + 1) / 10 ≡ k / 10 = ground arith in rw (miss, at, turn)
]

-- the wheel after `add_timer(len, u)`
abbrev pub armed : TimerWheel → ℕ → Ptr → TimerWheel
armed w len u =
    let i = (len + w.current) % 10 in
    record w { slot = update w.slot i (record { rotation = len / 10; ut = u } ∷ w.slot i) }

pub pending-armed :
    (w : TimerWheel) (len : ℕ) (u v : Ptr) (k : ℕ)
    → w.current < 10
    → pending (armed w len u) v k ≡ (if (u == v) && (len == k) then 1 else 0) + pending w v k
unfolding pending count_nodes
pending-armed w len u v k h = elim (Bool-cases ((w.current + k) % 10 == (len + w.current) % 10)) [
  | inl hit ↦
      let at : (w.current + k) % 10 ≡ (len + w.current) % 10 = ground arith in
      let turn : (len / 10 == k / 10) ≡ (len == k) = ground arith in rw (hit, turn, at)
  | inr miss ↦ let ne : (len == k) ≡ false = ground arith in rw (miss, ne) (ground arith)
]

module _ ⦃e : Env⦄ where
  -- In one tick every timer comes one tick nearer: those that would go off in the tick after next
  -- now go off in the next one, and no timer is lost or made.
  pub pending-tick :
      (s t : Rt) (u : Ptr) (k : ℕ)
      → s.timer.current < 10
      → tick s ≡ ok tt t
      → pending t.timer u k ≡ pending s.timer u (k + 1)
  pending-tick s t u k h done = rw (tick-timer s t done) (pending-aged s.timer u k h)

  tick-current : (s t : Rt) → tick s ≡ ok tt t → t.timer.current < 10
  tick-current s t done = rw (tick-timer s t done) (omega arith)

  add_timer-timer :
      (len : ℕ) (u : Ptr) (s t : Rt) → add_timer len u s ≡ ok tt t → t.timer ≡ armed s.timer len u
  unfolding add_timer syscall
  add_timer-timer len u s t done = ground arith

  -- `add_timer(len, u)` arms one timer of `u` that goes off after `len` more ticks, and changes no
  -- other timer.
  pub pending-add_timer :
      (len : ℕ) (u v : Ptr) (s t : Rt) (k : ℕ)
      → s.timer.current < 10
      → add_timer len u s ≡ ok tt t
      → pending t.timer v k ≡ (if (u == v) && (len == k) then 1 else 0) + pending s.timer v k
  pending-add_timer len u v s t k h done =
      rw (add_timer-timer len u s t done) (pending-armed s.timer len u v k h)

  -- `n` ticks in a row
  unfoldable pub ticks : ℕ → M (Unit {0})
  ticks zero = pure tt
  ticks (suc n) = tick >> ticks n

  pending-ticks :
      (n : ℕ) (s t : Rt) (u : Ptr) (k : ℕ)
      → s.timer.current < 10
      → ticks n s ≡ ok tt t
      → pending t.timer u k ≡ pending s.timer u (n + k)
  unfolding ticks
  pending-ticks zero s t u k h done =
      let same : s ≡ t = cc in rw (← same) (ap (pending s.timer u) (omega arith))
  pending-ticks (suc n) s t u k h done =
      let (_, m, first, rest) = bind-eq-ok (tick s) (λ _. ticks n) done in
      pending-ticks n m t u k (tick-current s m first) rest
      ∙ pending-tick s m u (n + k) h first
      ∙ ap (pending s.timer u) (omega arith)

  -- A timer that `add_timer(len, u)` arms is due in the tick after the next `len`, no earlier and no
  -- later, and every other timer keeps its time: after `n` ticks the number due in the tick after
  -- `k` more is what it would have been, with one more where `n + k` is `len`.
  pub pending-add_timer-ticks :
      (len n : ℕ) (u v : Ptr) (s t r : Rt) (k : ℕ)
      → s.timer.current < 10
      → add_timer len u s ≡ ok tt t
      → ticks n t ≡ ok tt r
      → pending r.timer v k
        ≡ (if (u == v) && (len == n + k) then 1 else 0) + pending s.timer v (n + k)
  pending-add_timer-ticks len n u v s t r k h arm run =
      let in_range : t.timer.current < 10 = rw (add_timer-timer len u s t arm) h in
      pending-ticks n t r v k in_range run ∙ pending-add_timer len u v s t (n + k) h arm
