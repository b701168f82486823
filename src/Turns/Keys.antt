-- ===== src/Turns/Keys.antt =====
-- The keys of the waiting tree.
use uthread.Lifecycle.{wait_cmp}
use mathlib.Core.Path.{sym, subst}
use uthread.Base.{
  ◌==◌, none, sym, Bool-cases, inr, inl, Option-cases, true, ◌<◌, ℕ, ◌≡◌, ap, ◌∙◌, false, count,
  arith, ℤ, pos,
}
use uthread.Status.{Event, event_code}
use uthread.Types.{Ptr, Uthread}
use uthread.Machine.{Env, peek, Rt, Cell, live}
use uthread.Sleep.{wait_order, fd_key}
use uthread.Turns.Trees.{RbLaws}
use uthread.Turns.{waits_for, Fits, asleep, waits_for, Place, Represents}
use uthread.Turns.Facts.{in_sleep-inv}

-- Nobody in the waiting tree waits for the event of the descriptor.
abbrev pub Unwaited : ℕ → ℤ → Event → Rt → Type 0
Unwaited j fd ev s =
    (b : Ptr)
    → 0 < count b (s.global.all_p j).waiting
    → waits_for (s.heap b) ≡ fd_key fd (event_code ev)
    → false ≡ true

-- equal nodes of the waiting tree wait for the same
pub wait_cmp-equal : (u v : Uthread) → wait_cmp u v ≡ pos 0 → u.fd_wait ≡ v.fd_wait
unfolding wait_cmp
wait_cmp-equal u v h = ground (arith, h)

pub wait_cmp-key : (u v : Uthread) → u.fd_wait ≡ v.fd_wait → wait_cmp u v ≡ pos 0
unfolding wait_cmp
wait_cmp-key u v h = ground (arith, h)

-- the key that a search reads in a block
abbrev pub key_of : Cell → ℤ
key_of c = (peek (λ x. c) 0).fd_wait

-- who is in the waiting tree has a live block, with its key
pub waiter_key :
    (i j : ℕ) (place : Ptr → Place) (s : Rt) (b : Ptr)
    → Represents i j place s
    → 0 < count b (s.global.all_p j).waiting
    → (v : Uthread) × (s.heap b ≡ live v) × (waits_for (s.heap b) ≡ (peek s.heap b).fd_wait)
waiter_key i j place s b before member =
    let lies : place b ≡ asleep =
      in_sleep-inv (place b) (omega (arith, before.waiters b, member)) in
    let (v, is, _, _, _) = subst (λ (p : Place). Fits j p (s.heap b)) lies (before.cells b) in
    (v, is, ap waits_for is ∙ sym (ap key_of is))

module _ ⦃e : Env⦄ (laws : RbLaws e) where
  -- a new key fits into the tree
  pub Unwaited-fits :
      (i j : ℕ) (place : Ptr → Place) (a : Ptr) (fd : ℤ) (ev : Event) (s : Rt) (h : Ptr → Cell)
      (v : Uthread)
      → Represents i j place s
      → h a ≡ live v
      → v.fd_wait ≡ fd_key fd (event_code ev)
      → ((x : Ptr) → (x == a) ≡ false → h x ≡ s.heap x)
      → count a (s.global.all_p j).waiting ≡ 0
      → Unwaited j fd ev s
      → (e.rb_insert (wait_order h) a (s.global.all_p j).waiting).1 ≡ none
  Unwaited-fits i j place a fd ev s h v before at_a key others new alone =
      let l = (s.global.all_p j).waiting in
      elim (Option-cases (e.rb_insert (wait_order h) a l).1) [
        | inl fits ↦ fits
        | inr (x, there) ↦
            let (member, equal, _) = laws.refused (wait_order h) a x l there in
            elim (Bool-cases (x == a)) [
              | inl hit ↦
                  let is : x ≡ a = ground arith in
                  absurd (omega (arith, new, subst (λ y. 0 < count y l) is member))
              | inr miss ↦
                  let (_, _, theirs) = waiter_key i j place s x before member in
                  let mine : (peek h a).fd_wait ≡ v.fd_wait = ap key_of at_a in
                  let keys : (peek h x).fd_wait ≡ (peek s.heap x).fd_wait =
                    ap key_of (others x miss) in
                  let wrong = alone x member (
                    theirs
                    ∙ sym keys
                    ∙ sym (wait_cmp-equal (peek h a) (peek h x) equal)
                    ∙ mine
                    ∙ key) in
                  cc
            ]
      ]
