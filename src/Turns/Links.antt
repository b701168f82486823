-- ===== src/Turns/Links.antt =====
-- A uthread that sleeps is noted as the joiner of another one.
use mathlib.Core.Path.{subst}
use uthread.Base.{
  ℕ, ◌≡◌, refl, ap, ◌∙◌, sym, Option, none, some, Bool, true, false, ◌==◌, if◌then◌else◌, count,
  arith, Bool-cases, inl, inr, ◌⊎◌,
}
use uthread.Types.{GlobalData, Ptr, Uthread}
use uthread.Machine.{Rt, Cell, live}
use uthread.Turns.{waits_for, Place, asleep, Alive, Fits, Represents}
use uthread.Turns.Facts.{joined_of}

-- `ut` says who joins it, and where its result is to go
abbrev pub joined_by : Option Ptr → Option ℕ → Uthread → Uthread
joined_by cur retval u = record u { ut_joined = cur; retval = retval }

Alive-joined :
    (j : ℕ) (b : Bool) (o : Option Ptr) (r : Option ℕ) (w : Uthread)
    → Alive j b (live w)
    → Alive j b (live (joined_by o r w))
Alive-joined j b o r w (u, is, home, going, sleeps) =
    let same : w ≡ u = cc in (joined_by o r w, refl, rw same home, rw same going, rw same sleeps)

Fits-joined :
    (j : ℕ) (p : Place) (o : Option Ptr) (r : Option ℕ) (w : Uthread)
    → Fits j p (live w)
    → Fits j p (live (joined_by o r w))
Fits-joined j Place.gone o r w h = h
Fits-joined j Place.queued o r w h = Alive-joined j false o r w h
Fits-joined j Place.running o r w h = Alive-joined j false o r w h
Fits-joined j Place.asleep o r w h = Alive-joined j true o r w h

module _ (i j : ℕ) (place : Ptr → Place) (s t : Rt) (a b : Ptr) (retval : Option ℕ) (w : Uthread)
    (before : Represents i j place s) (own : t.tls ≡ s.tls) (global : t.global ≡ s.global)
    (block : s.heap b ≡ live w)
    (marked : (x : Ptr)
      → t.heap x ≡ (if x == b then live (joined_by (some a) retval w) else s.heap x))
    (sleeps : place a ≡ asleep) (free : count a (s.global.all_p j).waiting ≡ 0)
    (alone : (c : Ptr) (v : Uthread)
      → s.heap c ≡ live v
      → v.ut_joined ≡ some a
      → false ≡ true) where
  -- the uthread whose block holds a link of `t` had it in `s`, or is `b`
  source :
      (c x : Ptr) (v : Uthread)
      → t.heap c ≡ live v
      → v.ut_joined ≡ some x
      → ((c ≡ b) × (x ≡ a)) ⊎ ((s.heap c ≡ live v) × ((c == b) ≡ false))
  source c x v stood link = elim (Bool-cases (c == b)) [
    | inl hit ↦
        let is : live (joined_by (some a) retval w) ≡ live v = rw hit at (sym (marked c)) ∙ stood in
        let target : some a ≡ v.ut_joined = ap (λ (q : Cell). joined_of q) is in
        inl (ground arith, cc)
    | inr miss ↦ inr (rw miss at (sym (marked c)) ∙ stood, miss)
  ]

  linked_key : (x : Ptr) → waits_for (t.heap x) ≡ waits_for (s.heap x)
  linked_key x = elim (Bool-cases (x == b)) [
    | inl hit ↦
        let is : x ≡ b = ground arith in
        let now : t.heap x ≡ live (joined_by (some a) retval w) = marked x ∙ rw hit in
        let old : s.heap x ≡ live w = ap s.heap is ∙ block in
        ap waits_for now ∙ sym (ap waits_for old)
    | inr miss ↦ let same : t.heap x ≡ s.heap x = marked x ∙ rw miss in ap waits_for same
  ]

  pub linked : Represents i j place t
  linked = record {
    own = own ∙ before.own;
    bound = rw global before.bound;
    cells = λ x. elim (Bool-cases (x == b)) [
      | inl hit ↦
          let is : x ≡ b = ground arith in
          rw (marked x, hit, is)
            (Fits-joined j (place b) (some a) retval w
              (subst (Fits j (place b)) block (before.cells b)))
      | inr miss ↦ rw (marked x, miss) (before.cells x)
    ];
    readies = rw global before.readies;
    sleepers = rw global before.sleepers;
    current = rw global before.current;
    waiters = rw global before.waiters;
    joiners = λ c x v stood link. elim (source c x v stood link) [
      | inl (_, is) ↦ rw (is, global) (sleeps, free)
      | inr (old, _) ↦ rw global (before.joiners c x v old link)
    ];
    once = λ c d x u v one two link link'. elim (source c x u one link) [
      | inl (is, at) ↦ elim (source d x v two link') [
        | inl (is', _) ↦ is ∙ sym is'
        | inr (old, _) ↦ let wrong = alone d v old (link' ∙ ap (λ y. some y) at) in cc
      ]
      | inr (old, _) ↦ elim (source d x v two link') [
        | inl (is', at') ↦ let wrong = alone c u old (link ∙ ap (λ y. some y) at') in cc
        | inr (old', _) ↦ before.once c d x u v old old' link link'
      ]
    ];
    keyed = λ x k lies is.
        ap (λ (g : GlobalData). count x (g.all_p j).waiting) global
        ∙ before.keyed x k lies (sym (linked_key x) ∙ is);
    sole = λ x y one two same.
        before.sole x y (rw global at one) (rw global at two)
          (sym (linked_key x) ∙ same ∙ linked_key y);
  }

-- Nobody that `a` joined is alive in `s`; nor is anybody in `h`, where only the blocks of `a` and of `b`
-- are others than in `s`.
pub nobody_joined :
    (a b : Ptr) (s : Rt) (h : Ptr → Cell) (u w k : Uthread)
    → ((c : Ptr) (v : Uthread) → s.heap c ≡ live v → v.ut_joined ≡ some a → false ≡ true)
    → s.heap a ≡ live u
    → k.ut_joined ≡ u.ut_joined
    → h a ≡ live k
    → h b ≡ live w
    → w.ut_joined ≡ none
    → ((c : Ptr) → (c == a) ≡ false → (c == b) ≡ false → h c ≡ s.heap c)
    → (c : Ptr) (v : Uthread) → h c ≡ live v
    → v.ut_joined ≡ some a
    → false ≡ true
nobody_joined a b s h u w k untouched alive same at_a at_b unjoined others c v stood link =
    elim (Bool-cases (c == a)) [
      | inl hit ↦
          let is : c ≡ a = ground arith in
          let block : live k ≡ live v = sym at_a ∙ ap h (sym is) ∙ stood in
          let mine : k.ut_joined ≡ v.ut_joined = ap (λ (q : Cell). joined_of q) block in
          untouched a u alive (sym same ∙ mine ∙ link)
      | inr miss ↦ elim (Bool-cases (c == b)) [
        | inl hit ↦
            let is : c ≡ b = ground arith in
            let block : live w ≡ live v = sym at_b ∙ ap h (sym is) ∙ stood in
            let none_yet : w.ut_joined ≡ v.ut_joined = ap (λ (q : Cell). joined_of q) block in cc
        | inr far ↦ untouched c v (sym (others c miss far) ∙ stood) link
      ]
    ]
