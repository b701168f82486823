-- ===== src/Tests/Turns.antt =====
-- The theorems on the runtime with one p, at a run of two uthreads of which one joins the other.
use uthread.Turns.Tally.{Tally, Reach-Tally}
use uthread.Base.{
  true, List, ◌+◌, ◌≡◌, refl, ap, ◌∙◌, sym, none, some, false, [], ◌∷◌, ◌==◌, if◌then◌else◌, arith,
  count, Bool-cases, inl, inr,
}
use uthread.Types.{Uthread, Ptr}
use uthread.Machine.{live, Rt}
use uthread.Tests.Setup.{env, a_uthread, after}
use uthread.Turns.{
  is_live, Place, gone, queued, running, Fits, Represents, here, in_ready, in_run, in_sleep,
}
use uthread.Turns.Facts.{joined_of}
use uthread.Turns.Sleep.{turn_sleep}
use uthread.Turns.Yield.{turn_yield}
use uthread.Turns.Joins.{turn_join}
use uthread.Turns.Runs.{turn_resume}
use uthread.Turns.Exits.{turn_exit}
use uthread.Turns.Move.{Heeds, counts, Move}
use uthread.Turns.Step.{Step, joins, resumes, exits}
use uthread.Turns.Refines.{Step-refines}
use uthread.Turns.Reaches.{
  failures, Reach, begins, goes_on, Reach-in_one_place, Reach-joiner, Reach-status,
}
use uthread.Status.{has, set_bit, clear_bit}
use uthread.Machine.{get_usec_now, store, load, syscall, free, peek}
use uthread.Timer.{add_timer}
use uthread.Lifecycle.{
  yield_enter, exit_enter, forget_uthread, sleep_cmp, uthread_free, uthread_free_main, uthread_init,
}
use uthread.Sleep.{sleep_enter, desched_sleep}
use uthread.Join.{join_mark}
use uthread.Resume.{resume_enter, resume_leave, resume_exited, wake_joiner}
use uthread.Tests.Trees.{forest, forest_laws, pair}

abbrev places : Ptr → Place
places a = if a == 100 then running else if a == 101 then queued else gone

pair_unjoined : (b : Ptr) → joined_of (pair.heap b) ≡ none
pair_unjoined b = elim (Bool-cases (b == 101)) [
  | inl hit ↦ rw hit
  | inr miss ↦ elim (Bool-cases (b == 100)) [ inl hit ↦ rw (miss, hit) | inr far ↦ rw (miss, far) ]
]

abbrev In : Ptr → Type 0
In a =
    Fits 0 (places a) (pair.heap a)
    × (count a (101 ∷ []) ≡ in_ready (places a))
    × (0 ≡ in_sleep (places a))
    × (here a (some 100) ≡ in_run (places a))

pair_In : (a : Ptr) → In a
unfolding has
pair_In a = elim (Bool-cases (a == 100)) [
  | inl hit ↦
      let is : a ≡ 100 = ground arith in
      rw is ((a_uthread, refl, refl, refl, refl), refl, refl, refl)
  | inr miss ↦ elim (Bool-cases (a == 101)) [
    | inl hit ↦
        let is : a ≡ 101 = ground arith in
        rw is ((a_uthread, refl, refl, refl, refl), refl, refl, refl)
    | inr far ↦
        let first : (100 == a) ≡ false = ground arith in
        let second : (101 == a) ≡ false = ground arith in
        rw (miss, far, first, second) (refl, refl, refl, refl)
  ]
]

pair-Represents : Represents 0 0 places pair
pair-Represents = record {
  own = refl;
  bound = refl;
  cells = λ a. (pair_In a).0;
  readies = λ a. (pair_In a).1;
  sleepers = λ a. (pair_In a).2;
  current = λ a. (pair_In a).3;
  waiters = λ a. omega arith;
  joiners = λ b a u alive link.
      let wrong : none ≡ some a = sym (pair_unjoined b) ∙ ap joined_of alive ∙ link in cc;
  once = λ b c a u v alive _ link _.
      let wrong : none ≡ some a = sym (pair_unjoined b) ∙ ap joined_of alive ∙ link in cc;
  keyed = λ a k lies is. absurd (omega (arith, (pair_In a).2, ap in_sleep lies));
  sole = λ a b one two same. absurd (omega (arith, one));
}

-- 100 joins 101, 101 runs, and ends
abbrev joined : Rt
joined = after (turn_join ⦃e = forest⦄ 0 100 101 none pair) pair

abbrev resumed : Rt
resumed = after (turn_resume ⦃e = forest⦄ 0 0 101 [] joined) joined

abbrev left : Rt
left = after (turn_exit ⦃e = forest⦄ 0 (some 7) resumed) resumed

Step-refines_example :
    (q : Ptr → Place) × (m : Move places q) × Represents 0 0 q joined
    × (joined.global.n_uthread ≡ counts m pair.global.n_uthread)
    × Heeds m (λ a. joined_of (pair.heap a))
unfolding turn_join join_mark turn_sleep sleep_enter turn_yield yield_enter resume_leave
    get_usec_now has set_bit store load
Step-refines_example =
    Step-refines ⦃e = forest⦄ forest_laws (λ tr. (refl, refl)) 0 0 places pair joined
      pair-Represents (joins 100 101 none a_uthread refl refl refl refl refl refl)

pair_joins : Step ⦃e = forest⦄ 0 0 pair joined
unfolding turn_join join_mark turn_sleep sleep_enter turn_yield yield_enter resume_leave
    get_usec_now has set_bit store load
pair_joins = joins 100 101 none a_uthread refl refl refl refl refl refl

joined_resumes : Step ⦃e = forest⦄ 0 0 joined resumed
unfolding turn_join turn_resume join_mark store turn_sleep sleep_enter get_usec_now load turn_yield
    yield_enter resume_leave has set_bit resume_enter add_timer syscall
joined_resumes = resumes 101 [] refl refl refl

resumed_exits : Step ⦃e = forest⦄ 0 0 resumed left
unfolding turn_join turn_resume turn_exit resume_enter load join_mark store turn_sleep sleep_enter
    get_usec_now turn_yield yield_enter resume_leave has set_bit add_timer syscall exit_enter
    resume_exited wake_joiner forget_uthread sleep_cmp uthread_free uthread_free_main uthread_init
    free desched_sleep clear_bit
resumed_exits = exits 101 (some 7) refl refl

pair-left : Reach ⦃e = forest⦄ 0 0 pair left
pair-left = goes_on (goes_on (goes_on begins pair_joins) joined_resumes) resumed_exits

left_lem : ((left.global.all_p 0).ready ≡ 100 ∷ []) × ((left.global.all_p 0).sleeping ≡ [])
unfolding turn_join turn_resume turn_exit resume_enter load join_mark store turn_sleep sleep_enter
    get_usec_now turn_yield yield_enter resume_leave has set_bit add_timer syscall exit_enter
    resume_exited wake_joiner forget_uthread sleep_cmp uthread_free uthread_free_main uthread_init
    free desched_sleep clear_bit
left_lem = (refl, refl)

Reach-in_one_place_example :
    count 100 (left.global.all_p 0).ready
      + count 100 (left.global.all_p 0).sleeping
      + here 100 (left.global.all_sched 0).cur_uthread
    ≡ 1
unfolding turn_join turn_resume turn_exit resume_enter load join_mark store turn_sleep sleep_enter
    get_usec_now turn_yield yield_enter resume_leave has set_bit add_timer syscall exit_enter
    resume_exited wake_joiner forget_uthread sleep_cmp uthread_free uthread_free_main uthread_init
    free desched_sleep clear_bit
Reach-in_one_place_example =
    Reach-in_one_place ⦃e = forest⦄ forest_laws (λ tr. (refl, refl)) 0 0 places pair left 100
      pair-Represents pair-left

pair_counted : (a : Ptr) → count a (100 ∷ 101 ∷ []) ≡ (if is_live (pair.heap a) then 1 else 0)
pair_counted a = elim (Bool-cases (a == 100)) [
  | inl hit ↦ let is : a ≡ 100 = ground arith in rw is refl
  | inr miss ↦ elim (Bool-cases (a == 101)) [
    | inl hit ↦ let is : a ≡ 101 = ground arith in rw is refl
    | inr far ↦
        let first : (100 == a) ≡ false = ground arith in
        let second : (101 == a) ≡ false = ground arith in rw (miss, far, first, second) refl
  ]
]

Reach-Tally_example : (now : List Ptr) × Tally left now (failures ⦃e = forest⦄ pair-left 0)
Reach-Tally_example =
    Reach-Tally ⦃e = forest⦄ forest_laws (λ tr. (refl, refl)) 0 0 places pair left (100 ∷ 101 ∷ [])
      0 pair-Represents (pair_counted, refl) pair-left

Reach-status_example :
    let u = peek left.heap 100 in
    (has u.status 2 ≡ false)
    × (u.p ≡ some 0)
    × (count 100 (left.global.all_p 0).sleeping ≡ (if has u.status 3 then 1 else 0))
unfolding turn_join turn_resume turn_exit resume_enter load join_mark store turn_sleep sleep_enter
    get_usec_now turn_yield yield_enter resume_leave has set_bit add_timer syscall exit_enter
    resume_exited wake_joiner forget_uthread sleep_cmp uthread_free uthread_free_main uthread_init
    free desched_sleep clear_bit
Reach-status_example =
    Reach-status ⦃e = forest⦄ forest_laws (λ tr. (refl, refl)) 0 0 places pair left 100
      (peek left.heap 100) pair-Represents pair-left refl

Reach-joiner_example :
    (v : Uthread) × (joined.heap 100 ≡ live v)
    × (has v.status 2 ≡ false)
    × (has v.status 3 ≡ true)
    × (v.p ≡ some 0)
    × (count 100 (joined.global.all_p 0).sleeping ≡ 1)
    × (count 100 (joined.global.all_p 0).ready ≡ 0)
    × (count 100 (joined.global.all_p 0).waiting ≡ 0)
unfolding turn_join join_mark turn_sleep sleep_enter turn_yield yield_enter resume_leave
    get_usec_now has set_bit store load
Reach-joiner_example =
    Reach-joiner ⦃e = forest⦄ forest_laws (λ tr. (refl, refl)) 0 0 places pair joined 100 101
      (peek joined.heap 101) pair-Represents (goes_on begins pair_joins) refl refl
