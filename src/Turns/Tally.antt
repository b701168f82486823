-- ===== src/Turns/Tally.antt =====
-- uthread_inner.h: what the counter n_uthread of the global data counts.
use uthread.Base.{
  ◌⊎◌, ◌≤◌, ℕ, suc, ◌+◌, ◌%◌, ◌^◌, ◌≡◌, ap, ◌∙◌, sym, true, false, List, [], ◌∷◌, ◌==◌,
  if◌then◌else◌, count, erase, length, update, arith, Bool-cases, inl, inr,
}
use uthread.Types.{Ptr}
use uthread.Machine.{Rt, Cell, Env}
use uthread.Resume.Leave.{Mutex}
use uthread.Turns.{
  Place, gone, queued, running, asleep, is_live, Fits, Represents, one_more, one_less,
}
use uthread.Turns.Trees.{RbLaws}
use uthread.Turns.Move.{
  fails, Move, resumed, roused, yielded, slept, ended, ended_waking, created, failed, stayed,
  counts,
}
use uthread.Turns.Refines.{Step_Moved}
use uthread.Turns.Reaches.{failures, Reach, begins, goes_on}

pub count-erase :
    (a b : Ptr) (l : List Ptr)
    → count a l ≡ 1
    → count b (erase a l) ≡ (if b == a then 0 else count b l)
count-erase a b [] h = cc
count-erase a b (y ∷ ys) h = elim (Bool-cases (a == y)) [
  | inl hit ↦ ground (arith, h)
  | inr miss ↦ let rest = count-erase a b ys (ground arith) in ground (arith, rest)
]

length-erase : (a : Ptr) (l : List Ptr) → count a l ≡ 1 → length l ≡ suc (length (erase a l))
length-erase a [] h = cc
length-erase a (y ∷ ys) h = elim (Bool-cases (a == y)) [
  | inl hit ↦ rw hit
  | inr miss ↦ let rest = length-erase a ys (ground arith) in rw miss (ap suc rest)
]

abbrev lives : Place → ℕ
lives gone = 0
lives queued = 1
lives running = 1
lives asleep = 1

Fits-lives : (j : ℕ) (p : Place) (c : Cell) → Fits j p c → lives p ≡ (if is_live c then 1 else 0)
Fits-lives j Place.gone c dead = rw dead
Fits-lives j Place.queued c (u, is, _, _, _) = rw is
Fits-lives j Place.running c (u, is, _, _, _) = rw is
Fits-lives j Place.asleep c (u, is, _, _, _) = rw is

-- `all` are the uthreads that are somewhere, and `f` creations failed after they were counted
abbrev Listed : (Ptr → Place) → List Ptr → ℕ → ℕ → Type 0
Listed p all f n = ((b : Ptr) → count b all ≡ lives (p b)) × (n ≡ (length all + f) % 2 ^ 32)

abbrev Counted : (Ptr → Place) → ℕ → ℕ → Type 0
Counted p f n = (all : List Ptr) × Listed p all f n

-- where a uthread goes from one place to another one, as many live
moved_lives :
    (p : Ptr → Place) (a : Ptr) (to : Place)
    → lives to ≡ lives (p a)
    → (b : Ptr) → lives (update p a to b) ≡ lives (p b)
moved_lives p a to same b = elim (Bool-cases (b == a)) [
  | inl hit ↦ let is : b ≡ a = ground arith in rw (hit, is) same
  | inr miss ↦ rw miss
]

stays_Counted :
    (p q : Ptr → Place) (f n : ℕ)
    → ((b : Ptr) → lives (q b) ≡ lives (p b))
    → Counted p f n
    → Counted q f n
stays_Counted p q f n same (all, (each, number)) = (all, ((λ b. each b ∙ sym (same b)), number))

less_mod : (l f n : ℕ) → n ≡ (suc l + f) % 2 ^ 32 → one_less n ≡ (l + f) % 2 ^ 32
less_mod l f n h = omega (arith, h)

more_mod : (l n : ℕ) → n ≡ l % 2 ^ 32 → one_more n ≡ (l + 1) % 2 ^ 32
more_mod l n h = omega (arith, h)

-- one uthread ends
ends_Counted :
    (p : Ptr → Place) (a : Ptr) (f n : ℕ)
    → lives (p a) ≡ 1
    → Counted p f n
    → Counted (update p a Place.gone) f (one_less n)
ends_Counted p a f n lived (all, (each, number)) =
    let one = each a ∙ lived in
    (
      erase a all,
      (
        λ b.
            count-erase a b all one
            ∙ elim (Bool-cases (b == a)) [ inl hit ↦ rw hit | inr miss ↦ rw miss (each b) ],
        less_mod (length (erase a all)) f n
            (number ∙ ap (λ l. (l + f) % 2 ^ 32) (length-erase a all one)),
      ),
    )

-- A move keeps the count, with the creation that fails in it.
Move_Counted :
    (p q : Ptr → Place) (f n : ℕ) (m : Move p q)
    → Counted p f n
    → Counted q (fails m f) (counts m n)
Move_Counted p q f n (resumed a idle from to) now = rw to (
    stays_Counted p (update p a Place.running) f n
      (moved_lives p a Place.running (ap lives (sym from))) now)
Move_Counted p q f n (roused a idle from to) now = rw to (
    stays_Counted p (update p a Place.running) f n
      (moved_lives p a Place.running (ap lives (sym from))) now)
Move_Counted p q f n (yielded a from to) now = rw to (
    stays_Counted p (update p a Place.queued) f n
      (moved_lives p a Place.queued (ap lives (sym from))) now)
Move_Counted p q f n (slept a from to) now = rw to (
    stays_Counted p (update p a Place.asleep) f n
      (moved_lives p a Place.asleep (ap lives (sym from))) now)
Move_Counted p q f n (ended a from to) now = rw to (ends_Counted p a f n (ap lives from) now)
Move_Counted p q f n (ended_waking a x from sleeps to) now =
    let r = update p x Place.queued in
    let same = moved_lives p x Place.queued (ap lives (sym sleeps)) in
    rw to (ends_Counted r a f n (same a ∙ ap lives from) (stays_Counted p r f n same now))
Move_Counted p q f n (created a from to) (all, (each, number)) =
    let new : count a all ≡ 0 = each a ∙ ap lives from in
    rw to (
      a ∷ all,
      (
        λ b. elim (Bool-cases (b == a)) [
          | inl hit ↦
              let is : b ≡ a = ground arith in
              let here' : (a == b) ≡ true = ground arith in
              let one : count b all ≡ 0 = ap (λ x. count x all) is ∙ new in
              rw (here', hit) (omega (arith, one))
          | inr miss ↦
              let other : (a == b) ≡ false = ground arith in
              rw (other, miss) (omega (arith, each b))
        ],
        more_mod (length all + f) n number ∙ ap (λ l. l % 2 ^ 32) (omega arith),
      ),
    )
Move_Counted p q f n (failed a from to) (all, (each, number)) = rw to (
  all,
  (
    λ b. each b ∙ sym (moved_lives p a Place.gone (ap lives (sym from)) b),
    more_mod (length all + f) n number ∙ ap (λ l. l % 2 ^ 32) (omega arith),
  ),
)
Move_Counted p q f n (stayed same) now = rw same now

-- The counter of `s` is the number of the live uthreads, which are `all`, and of `f` failed creations,
-- in 32 bits.
abbrev pub Tally : Rt → List Ptr → ℕ → Type 0
Tally s all f =
    ((b : Ptr) → count b all ≡ (if is_live (s.heap b) then 1 else 0))
    × (s.global.n_uthread ≡ (length all + f) % 2 ^ 32)

module _ ⦃e : Env⦄ (laws : RbLaws e) (mutex : Mutex e) (i j : ℕ) where
  reached_Counted :
      (place : Ptr → Place) (s t : Rt) (f : ℕ)
      → Represents i j place s
      → Counted place f s.global.n_uthread
      → (reached : Reach i j s t)
      → (q : Ptr → Place) × Represents i j q t × Counted q (failures reached f) t.global.n_uthread
  reached_Counted place s t f before now begins = (place, before, now)
  reached_Counted place s t f before now (goes_on {t = m} reached step) =
      let (p, there, counted) = reached_Counted place s m f before now reached in
      let (q, move, after, number, _, lost') = Step_Moved laws mutex i j p m t there step in
      (
        q,
        after,
        rw (number, ← lost' (failures reached f))
            (Move_Counted p q (failures reached f) m.global.n_uthread move counted),
      )

  -- Over a lawful search tree and a mutex that works, with one p: where each uthread has one place and
  -- n_uthread is, modulo 2 ^ 32, the number of the live uthreads and `f`, it is in the state that turns
  -- lead to the number of the uthreads live there, `f`, and the turns among these in which a creation
  -- failed after it was counted.
  pub Reach-Tally :
      (place : Ptr → Place) (s t : Rt) (all : List Ptr) (f : ℕ)
      → Represents i j place s
      → Tally s all f
      → (reached : Reach i j s t) → (now : List Ptr) × Tally t now (failures reached f)
  Reach-Tally place s t all f before (each, number) reached =
      let start : Counted place f s.global.n_uthread =
        (all, ((λ b. each b ∙ sym (Fits-lives j (place b) (s.heap b) (before.cells b))), number)) in
      let (q, after, (now, (each', number'))) = reached_Counted place s t f before start reached in
      (now, ((λ b. each' b ∙ Fits-lives j (q b) (t.heap b) (after.cells b)), number'))

-- After `k` failed creations nobody is alive, or the counter has wrapped round.
abbrev pub NobodyLeft : ℕ → Rt → Type 0
NobodyLeft k s =
    ((b : Ptr) → is_live (s.heap b) ≡ false)
    ⊎ ((all : List Ptr) × Tally s all k × (2 ^ 32 ≤ length all + k))

pub Tally-NobodyLeft :
    (s : Rt) (all : List Ptr) (f : ℕ) → Tally s all f → s.global.n_uthread ≡ 0 → NobodyLeft f s
Tally-NobodyLeft s [] f (each, number) nobody = inl (λ b. elim (Bool-cases (is_live (s.heap b))) [
  | inl lives_there ↦ let wrong : 0 ≡ 1 = each b ∙ rw lives_there in cc
  | inr dead ↦ dead
])
Tally-NobodyLeft s (a ∷ all) f (each, number) nobody =
    inr (a ∷ all, (each, number), omega (arith, number, nobody))
