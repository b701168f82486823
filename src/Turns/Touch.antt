-- ===== src/Turns/Touch.antt =====
-- Code that changes one block leaves every uthread where it is.
use mathlib.Core.Path.{subst, fun_ext}
use uthread.Base.{
  ℕ, ◌≡◌, refl, ap, ◌∙◌, sym, Bool, true, false, ◌==◌, if◌then◌else◌, count, update, arith,
  Bool-cases, inl, inr,
}
use uthread.Status.{has}
use uthread.Status.St
use uthread.Types.{Ptr, Uthread}
use uthread.Machine.{Rt, Cell, live}
use uthread.Turns.{has, waits_for, asleep, Place, Alive, Fits, here, Represents}
use uthread.Turns.Facts.{in_sleep-inv, joined_of}
use uthread.Turns.Moved.{moved}
use uthread.Turns.Marks.{Marks}

-- a function with a case for `a`, where it has the same value
pub case_same {ℓ} :
    {A : Type ℓ} (f : Ptr → A) (a b : Ptr) (v : A) → f a ≡ v → f b ≡ (if b == a then v else f b)
case_same f a b v h = elim (Bool-cases (b == a)) [
  | inl hit ↦ let is : b ≡ a = ground arith in rw (hit, is) h
  | inr miss ↦ rw miss
]

Alive-Marks :
    (j : ℕ) (x : Bool) (a : Ptr) (u : Uthread) (s t : Rt)
    → (m : Marks a u s t) → Alive j x (live u)
    → Alive j x (live m.block)
Alive-Marks j x a u s t m (v, is, home, going, sleeps) =
    let same : u ≡ v = cc in
    (m.block, refl, m.home ∙ rw same home, m.ended ∙ rw same going, m.sleeps ∙ rw same sleeps)

Fits-Marks :
    (j : ℕ) (p : Place) (a : Ptr) (u : Uthread) (s t : Rt)
    → (m : Marks a u s t) → Fits j p (live u)
    → Fits j p (live m.block)
Fits-Marks j Place.gone a u s t m h = h
Fits-Marks j Place.queued a u s t m h = Alive-Marks j false a u s t m h
Fits-Marks j Place.running a u s t m h = Alive-Marks j false a u s t m h
Fits-Marks j Place.asleep a u s t m h = Alive-Marks j true a u s t m h

pub touched-Represents :
    (i j : ℕ) (place : Ptr → Place) (a : Ptr) (u : Uthread) (s t : Rt)
    → Represents i j place s
    → s.heap a ≡ live u
    → Marks a u s t
    → Represents i j place t
touched-Represents i j place a u s t before alive m =
    let g = m.global in
    let key_back : place a ≡ asleep → waits_for (s.heap a) ≡ m.block.fd_wait = λ lies.
      let (v, is, _, _, sleeps) =
        subst (λ (p : Place). Fits j p (s.heap a)) lies (before.cells a) in
      let same_block : v ≡ u = cc in
      ap waits_for alive
      ∙ sym (m.key (ap (λ (w : Uthread). has w.status St.sleeping) (sym same_block) ∙ sleeps)) in
    let same : update place a (place a) ≡ place =
      fun_ext (λ b. sym (case_same place a b (place a) refl)) in
    subst (λ (p : Ptr → Place). Represents i j p t) same
      (moved i j a (place a) (live m.block) place s t before (record {
        own = m.own ∙ before.own;
        bound = rw g before.bound;
        fits = Fits-Marks j (place a) a u s t m (subst (Fits j (place a)) alive (before.cells a));
        heap = m.heap;
        ready =
            λ b. rw g (case_same (λ x. count x (s.global.all_p j).ready) a b _ (before.readies a));
        sleeping = λ b.
            rw g (case_same (λ x. count x (s.global.all_p j).sleeping) a b _ (before.sleepers a));
        current = λ b.
            rw g
              (case_same (λ x. here x (s.global.all_sched i).cur_uthread) a b _ (before.current a));
        waiting = record {
          now = count a (s.global.all_p j).waiting;
          few = before.waiters a;
          counts = λ b. rw g (case_same (λ x. count x (s.global.all_p j).waiting) a b _ refl);
          key = λ k lies is. before.keyed a k lies (key_back lies ∙ is);
          lone = λ b apart one two same.
              let lies = in_sleep-inv (place a) (omega (arith, before.waiters a, one)) in
              let is : a ≡ b = before.sole a b one two (key_back lies ∙ same) in ground arith;
        };
        joins = λ w x is link. (u, alive, sym m.joined ∙ ap (λ (q : Cell). joined_of q) is ∙ link);
        held = λ b w stood link. rw g (before.joiners b a w stood link);
      }))
