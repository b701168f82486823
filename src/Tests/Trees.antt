-- ===== src/Tests/Trees.antt =====
-- A search tree that is a list, and a state with two uthreads.
use uthread.Turns.Tally.{count-erase}
use uthread.Base.{
  refl, ◌∙◌, head?, sym, ◌<◌, ◌≡◌, Option, none, some, true, List, [], ◌∷◌, ◌==◌, ==_refl,
  if◌then◌else◌, ℤ, pos, eqb_ℤ, arith, update, count, Bool-cases, Option-cases, inl, inr,
}
use uthread.Types.{Ptr}
use uthread.Machine.{Rt, live, Env}
use uthread.Tests.Setup.{env, a_uthread, one, state}
use uthread.Turns.Facts.{count_added}
use uthread.Turns.Trees.{RbLaws}
use uthread.Sleep.Collide.{GivesEqual}

-- the first member that is equal to what is looked for
abbrev first_match : (Ptr → ℤ) → List Ptr → Option Ptr
first_match order [] = none
first_match order (x ∷ xs) = if eqb_ℤ (order x) (pos 0) then some x else first_match order xs

abbrev insert_new : Ptr → List Ptr → Option Ptr → List Ptr × Option Ptr
insert_new a l none = (a ∷ l, none)
insert_new a l (some x) = (l, some x)

-- a lawful tree: a list that is searched
abbrev pub forest : Env
forest = record env {
  rb_insert = λ order a l. insert_new a l (first_match (order a) l);
  rb_find = first_match;
}

first_match-found :
    (order : Ptr → ℤ) (x : Ptr) (l : List Ptr)
    → first_match order l ≡ some x
    → (0 < count x l) × (order x ≡ pos 0)
first_match-found order x [] h = cc
first_match-found order x (y ∷ ys) h = elim (Bool-cases (eqb_ℤ (order y) (pos 0))) [
  | inl hit ↦
      let is : some y ≡ some x = rw hit at h in
      let same : y ≡ x = cc in
      let zero : order y ≡ pos 0 = ground arith in rw (← same, ==_refl y) (omega arith, zero)
  | inr miss ↦
      let (member, equal) = first_match-found order x ys (rw miss at h) in
      (omega (arith, member), equal)
]

first_match-some :
    (order : Ptr → ℤ) (x : Ptr) (l : List Ptr)
    → 0 < count x l
    → order x ≡ pos 0
    → (y : Ptr) × (first_match order l ≡ some y)
first_match-some order x [] member equal = absurd (omega arith)
first_match-some order x (z ∷ zs) member equal = elim (Bool-cases (eqb_ℤ (order z) (pos 0))) [
  | inl hit ↦ (z, rw hit)
  | inr miss ↦ elim (Bool-cases (z == x)) [
    | inl same ↦
        let is : z ≡ x = ground arith in
        let wrong : eqb_ℤ (order z) (pos 0) ≡ true = rw (is, equal) in cc
    | inr other ↦
        let rest : 0 < count x zs = omega (arith, rw other at member) in
        let (y, found) = first_match-some order x zs rest equal in (y, rw miss found)
  ]
]

count-head : (a : Ptr) (l : List Ptr) → head? l ≡ some a → 0 < count a l
count-head a [] h = cc
count-head a (x ∷ xs) h = let is : x ≡ a = cc in rw (is, ==_refl a) (omega arith)

pub forest_laws : RbLaws forest
forest_laws = record {
  inserted = λ order a l new fits b. elim (Option-cases (first_match (order a) l)) [
    | inl fresh ↦ rw fresh (ground (arith, count_added a b l new))
    | inr (x, there) ↦ let wrong : some x ≡ none = rw there at fits in cc
  ];
  refused = λ order a x l stuck. elim (Option-cases (first_match (order a) l)) [
    | inl fresh ↦ let wrong : none ≡ some x = rw fresh at stuck in cc
    | inr (y, there) ↦
        let is : some y ≡ some x = rw there at stuck in
        let same : y ≡ x = cc in
        let (member, equal) = first_match-found (order a) y l there in
        rw (there, ← same) (member, equal, refl)
  ];
  removed = λ a l h b. count-erase a b l h;
  found = first_match-found;
  missed = λ order x l nobody member equal.
      let (y, there) = first_match-some order x l member equal in
      let wrong : none ≡ some y = sym nobody ∙ there in cc;
  least = count-head;
}

pub forest_gives : GivesEqual forest
forest_gives order a x l member equal =
    let (y, found) = first_match-some (order a) x l member equal in (y, rw found)

-- 100 runs, and 101 is ready.
abbrev pub pair : Rt
pair = state (update (one 100 a_uthread) 101 (live a_uthread)) (101 ∷ []) (some 100)
