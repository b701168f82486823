-- ===== src/Tests/Rounds.antt =====
-- A round of the scheduler at a concrete state: two ready uthreads that yield at once.
use uthread.Base.{
  ◌≡◌, refl, none, false, [], ◌∷◌, ◌==◌, if◌then◌else◌, arith, update, count, Bool-cases, inl, inr,
  sym, ap, ◌∙◌, some,
}
use uthread.Types.{Ptr}
use uthread.Machine.{
  M, Rt, live, Env, Ctx, of_ut, of_sched, out_of_fuel, raise, bind-eq-ok, ◌>>=◌, ◌>>◌, pure, store,
  load, syscall,
}
use uthread.Lifecycle.{yield_enter, uthread_init, exit_enter}
use uthread.Timer.{add_timer}
use uthread.Resume.{uthread_resume, resume_enter, resume_leave}
use uthread.Poll.{uthread_poll, min_timeout, time_until}
use uthread.Event.{resume_expired, next_sleeper}
use uthread.Loop.{sched_round, serve, run_ready, run_first, run_events, has_p}
use uthread.Turns.{Place, gone, queued, Fits, Represents, in_ready, in_run, in_sleep}
use uthread.Turns.Facts.{joined_of}
use uthread.Turns.Trees.{RbLaws}
use uthread.Turns.Guest.{yielding, ending, Rested}
use uthread.Turns.Loops.{Guests}
use uthread.Turns.Rounds.{sched_round-Rested}
use uthread.Tests.Setup.{a_uthread, one, state, after}
use uthread.Tests.Trees.{forest, forest_laws}
use uthread.Status.{has, set_bit, clear_bit}

-- The uthread that the scheduler switches to yields at once.
abbrev comes_back : Ctx → Ctx → M (Unit {0})
comes_back (of_ut a) c = do b ← yield_enter; if b == a then pure tt else raise out_of_fuel
comes_back (of_sched i) c = pure tt

-- The uthread that the scheduler switches to ends.
abbrev pub ends_there : Ctx → Ctx → M (Unit {0})
ends_there (of_ut a) c = do
  exit_enter none
  b ← yield_enter
  if b == a then pure tt else raise out_of_fuel
ends_there (of_sched i) c = pure tt

abbrev pub switching : (Ctx → Ctx → M (Unit {0})) → Env
switching to = record forest { switch = to }

pub switching_laws : (to : Ctx → Ctx → M (Unit {0})) → RbLaws (switching to)
switching_laws to = record {
  inserted = forest_laws.inserted;
  refused = forest_laws.refused;
  removed = forest_laws.removed;
  found = forest_laws.found;
  missed = forest_laws.missed;
  least = forest_laws.least;
}

abbrev pub polite : Env
polite = switching comes_back

abbrev pub mortal : Env
mortal = switching ends_there

polite-Guests : Guests polite 0 0
polite-Guests a s t cur run =
    let (b, m, ran, more) =
      bind-eq-ok (yield_enter s) (λ b. if b == a then pure tt else raise out_of_fuel) run in
    elim (Bool-cases (b == a)) [
      | inl hit ↦
          let done = rw hit at more in
          let is : b ≡ a = ground arith in let end : m ≡ t = cc in yielding (rw (ran, is, end))
      | inr miss ↦ let wrong = rw miss at more in cc
    ]

pub mortal-Guests : Guests mortal 0 0
mortal-Guests a s t cur run =
    let after = λ (b : Ptr). if b == a then pure tt else raise out_of_fuel in
    let (_, r, ended, yielded) =
      bind-eq-ok (exit_enter none s) (λ _. (do b ← yield_enter; after b)) run in
    let (b, m, ran, more) = bind-eq-ok (yield_enter r) after yielded in
    elim (Bool-cases (b == a)) [
      | inl hit ↦
          let done = rw hit at more in
          let is : b ≡ a = ground arith in
          let end : m ≡ t = cc in ending none (rw (ended, ran, is, end))
      | inr miss ↦ let wrong = rw miss at more in cc
    ]

abbrev two_idle : Rt
two_idle = state (update (one 100 a_uthread) 101 (live a_uthread)) (100 ∷ 101 ∷ []) none

abbrev both : Ptr → Place
both a = if a == 100 then queued else if a == 101 then queued else gone

unjoined : (b : Ptr) → joined_of (two_idle.heap b) ≡ none
unjoined b = elim (Bool-cases (b == 101)) [
  | inl hit ↦ rw hit
  | inr miss ↦ elim (Bool-cases (b == 100)) [ inl hit ↦ rw (miss, hit) | inr far ↦ rw (miss, far) ]
]

abbrev In : Ptr → Type 0
In a =
    Fits 0 (both a) (two_idle.heap a)
    × (count a (100 ∷ 101 ∷ []) ≡ in_ready (both a))
    × (0 ≡ in_sleep (both a))
    × (0 ≡ in_run (both a))

two-In : (a : Ptr) → In a
unfolding has
two-In a = elim (Bool-cases (a == 100)) [
  | inl hit ↦
      let is : a ≡ 100 = ground arith in
      rw is ((a_uthread, refl, refl, refl, refl), refl, refl, refl)
  | inr miss ↦ elim (Bool-cases (a == 101)) [
    | inl hit ↦
        let is : a ≡ 101 = ground arith in
        rw is ((a_uthread, refl, refl, refl, refl), refl, refl, refl)
    | inr far ↦
        let first : (100 == a) ≡ false = ground arith in
        let second : (101 == a) ≡ false = ground arith in
        rw (miss, far, first, second) (refl, refl, refl, refl)
  ]
]

two_idle-Represents : Represents 0 0 both two_idle
two_idle-Represents = record {
  own = refl;
  bound = refl;
  cells = λ a. (two-In a).0;
  readies = λ a. (two-In a).1;
  sleepers = λ a. (two-In a).2;
  current = λ a. (two-In a).3;
  waiters = λ a. omega arith;
  joiners = λ b a u alive link.
      let wrong : none ≡ some a = sym (unjoined b) ∙ ap joined_of alive ∙ link in cc;
  once = λ b c a u v alive _ link _.
      let wrong : none ≡ some a = sym (unjoined b) ∙ ap joined_of alive ∙ link in cc;
  keyed = λ a k lies is. absurd (omega (arith, (two-In a).2, ap in_sleep lies));
  sole = λ a b one two same. absurd (omega (arith, one));
}

abbrev served : Rt
served = after (sched_round ⦃e = polite⦄ 9 0 two_idle) two_idle

sched_round-Rested_example : Rested ⦃e = polite⦄ 0 0 two_idle served
unfolding sched_round resume_expired next_sleeper serve run_ready run_first uthread_resume
    resume_enter resume_leave yield_enter add_timer uthread_init store load syscall uthread_poll
    min_timeout time_until run_events has has_p set_bit clear_bit
sched_round-Rested_example =
    sched_round-Rested ⦃e = polite⦄ (switching_laws comes_back) (λ tr. (refl, refl))
      (λ tr p n. refl) 0 0 polite-Guests 9 both two_idle served two_idle-Represents refl refl
