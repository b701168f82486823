-- ===== src/Turns/Moved.antt =====
-- A step that moves one uthread.
use uthread.Base.{
  ◌<◌, pos, false, true, ap, ℕ, ◌≡◌, ◌≤◌, sym, ◌∙◌, some, ◌==◌, if◌then◌else◌, count, update, arith,
  Bool-cases, inl, inr,
}
use uthread.Types.{Ptr, Uthread}
use uthread.Machine.{Rt, Cell, live}
use uthread.Turns.{waits_for, Place, asleep, in_ready, in_sleep, in_run, Fits, here, Represents}

-- The waiting tree from `s` to `t`, where `a` goes to `to` and its block becomes `c`.
pub record Waits (j : ℕ) (a : Ptr) (to : Place) (c : Cell) (s t : Rt) : Type 0 where
  pub now : ℕ
  pub few : now ≤ in_sleep to
  pub counts :
      (b : Ptr)
      → count b (t.global.all_p j).waiting
        ≡ (if b == a then now else count b (s.global.all_p j).waiting)
  pub key : (k : ℕ) → to ≡ asleep → waits_for c ≡ pos k → now ≡ 1
  pub lone :
      (b : Ptr)
      → (b == a) ≡ false
      → 0 < now
      → 0 < count b (s.global.all_p j).waiting
      → waits_for c ≡ waits_for (s.heap b)
      → false ≡ true

-- `a` does not wait
pub no-Waits :
    {j : ℕ} {a : Ptr} {to : Place} {c : Cell} {s t : Rt}
    → in_sleep to ≡ 0
    → ((b : Ptr)
        → count b (t.global.all_p j).waiting
          ≡ (if b == a then 0 else count b (s.global.all_p j).waiting))
    → Waits j a to c s t
no-Waits awake counts = record {
  now = 0;
  few = omega arith;
  counts = counts;
  key = λ k sleeps is. absurd (omega (arith, awake, ap in_sleep sleeps));
  lone = λ b apart some_wait other same. absurd (omega (arith, some_wait));
}

-- From `s` to `t` the uthread `a` goes to `to`, and its block becomes `c`; all else is as it was. The
-- block gets no new joiner, and a uthread that joined another one goes on sleeping.
pub record Moves (i j : ℕ) (a : Ptr) (to : Place) (c : Cell) (s t : Rt) : Type 0 where
  pub own : t.tls ≡ some i
  pub bound : (t.global.all_sched i).p ≡ some j
  pub fits : Fits j to c
  pub heap : (b : Ptr) → t.heap b ≡ (if b == a then c else s.heap b)
  pub ready :
      (b : Ptr)
      → count b (t.global.all_p j).ready
        ≡ (if b == a then in_ready to else count b (s.global.all_p j).ready)
  pub sleeping :
      (b : Ptr)
      → count b (t.global.all_p j).sleeping
        ≡ (if b == a then in_sleep to else count b (s.global.all_p j).sleeping)
  pub current :
      (b : Ptr)
      → here b (t.global.all_sched i).cur_uthread
        ≡ (if b == a then in_run to else here b (s.global.all_sched i).cur_uthread)
  pub waiting : Waits j a to c s t
  pub joins :
      (u : Uthread) (x : Ptr)
      → c ≡ live u
      → u.ut_joined ≡ some x
      → (v : Uthread) × (s.heap a ≡ live v) × (v.ut_joined ≡ some x)
  pub held :
      (b : Ptr) (u : Uthread)
      → s.heap b ≡ live u
      → u.ut_joined ≡ some a
      → (to ≡ asleep) × (count a (t.global.all_p j).waiting ≡ 0)

module _ (i j : ℕ) (a : Ptr) (to : Place) (c : Cell) (place : Ptr → Place) (s t : Rt)
    (before : Represents i j place s) (m : Moves i j a to c s t) where
  -- a link that stands after the move stood before
  link :
      (b x : Ptr) (u : Uthread)
      → t.heap b ≡ live u
      → u.ut_joined ≡ some x
      → (v : Uthread) × (s.heap b ≡ live v) × (v.ut_joined ≡ some x)
  link b x u alive joined = elim (Bool-cases (b == a)) [
    | inl hit ↦
        let is : b ≡ a = ground arith in
        let block : c ≡ live u = rw hit at (sym (m.heap b)) ∙ alive in
        rw is (m.joins u x block joined)
    | inr miss ↦ (u, rw miss at (sym (m.heap b)) ∙ alive, joined)
  ]

  key_at : (b : Ptr) → (b == a) ≡ true → waits_for (t.heap b) ≡ waits_for c
  key_at b hit = let is : t.heap b ≡ c = m.heap b ∙ rw hit in ap waits_for is

  key_off : (b : Ptr) → (b == a) ≡ false → waits_for (t.heap b) ≡ waits_for (s.heap b)
  key_off b miss = let is : t.heap b ≡ s.heap b = m.heap b ∙ rw miss in ap waits_for is

  waits_at :
      (b : Ptr) → (b == a) ≡ true → 0 < count b (t.global.all_p j).waiting → 0 < m.waiting.now
  waits_at b hit some_wait =
      let is : count b (t.global.all_p j).waiting ≡ m.waiting.now = m.waiting.counts b ∙ rw hit in
      omega (arith, some_wait, is)

  waits_off :
      (b : Ptr)
      → (b == a) ≡ false
      → 0 < count b (t.global.all_p j).waiting
      → 0 < count b (s.global.all_p j).waiting
  waits_off b miss some_wait =
      let is : count b (t.global.all_p j).waiting ≡ count b (s.global.all_p j).waiting =
        m.waiting.counts b ∙ rw miss in
      omega (arith, some_wait, is)

  pub moved : Represents i j (update place a to) t
  moved = record {
    own = m.own;
    bound = m.bound;
    cells = λ b. elim (Bool-cases (b == a)) [
      | inl hit ↦ rw (m.heap b, hit) m.fits
      | inr miss ↦ rw (m.heap b, miss) (before.cells b)
    ];
    readies = λ b. ground (arith, m.ready b, before.readies b);
    sleepers = λ b. ground (arith, m.sleeping b, before.sleepers b);
    current = λ b. ground (arith, m.current b, before.current b);
    waiters = λ b. ground (arith, m.waiting.counts b, m.waiting.few, before.waiters b);
    joiners = λ b x u alive joined.
        let (v, stood, joined') = link b x u alive joined in
        elim (Bool-cases (x == a)) [
          | inl hit ↦
              let is : x ≡ a = ground arith in
              let (stays, free) = m.held b v stood (rw is at joined') in (rw hit stays, rw is free)
          | inr miss ↦
              let (stays, free) = before.joiners b x v stood joined' in
              (rw miss stays, rw miss at (m.waiting.counts x) ∙ free)
        ];
    once = λ b d x u v one two joined joined'.
        let (u', one', j1) = link b x u one joined in
        let (v', two', j2) = link d x v two joined' in before.once b d x u' v' one' two' j1 j2;
    keyed = λ b k sleeps wants. elim (Bool-cases (b == a)) [
      | inl hit ↦
          let stays : to ≡ asleep = rw hit at sleeps in
          let wants' : waits_for c ≡ pos k = sym (key_at b hit) ∙ wants in
          m.waiting.counts b ∙ rw hit (m.waiting.key k stays wants')
      | inr miss ↦
          m.waiting.counts b
          ∙ rw miss (before.keyed b k (rw miss at sleeps) (sym (key_off b miss) ∙ wants))
    ];
    sole = λ b d one two equal. elim (Bool-cases (b == a)) [
      | inl hit ↦ elim (Bool-cases (d == a)) [
        | inl hit' ↦ ground arith
        | inr miss' ↦
            let wrong =
              m.waiting.lone d miss' (waits_at b hit one) (waits_off d miss' two)
                (sym (key_at b hit) ∙ equal ∙ key_off d miss') in
            cc
      ]
      | inr miss ↦ elim (Bool-cases (d == a)) [
        | inl hit' ↦
            let wrong =
              m.waiting.lone b miss (waits_at d hit' two) (waits_off b miss one)
                (sym (key_at d hit') ∙ sym equal ∙ key_off b miss) in
            cc
        | inr miss' ↦
            before.sole b d (waits_off b miss one) (waits_off d miss' two)
              (sym (key_off b miss) ∙ equal ∙ key_off d miss')
      ]
    ];
  }
