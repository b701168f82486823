-- ===== src/Turns/Program.antt =====
-- A program, from the first uthread_create on: _runtime_init, _uthread_create_main up to its switch,
-- and the loop of the scheduler that the switch enters.
use mathlib.Core.Path.{subst}
use uthread.Base.{ℕ, ◌≡◌, refl, ap, ◌∙◌, sym, Option, none, some, false, [], pos}
use uthread.Types.{Ptr, GlobalData}
use uthread.Machine.{Result, Rt, ok, stop, Env, Call, deref-some}
use uthread.Create.{runtime_init, create_main_enter, is_null}
use uthread.Create.Started.{Allocates}
use uthread.Loop.{sched_run}
use uthread.Resume.Leave.{Mutex}
use uthread.Turns.{is_live, Represents}
use uthread.Turns.Trees.{RbLaws}
use uthread.Turns.Main.{create_main_enter-made}
use uthread.Turns.Step.{Step, acts, begins_main}
use uthread.Turns.Refines.{Step-refines}
use uthread.Turns.Reaches.{begins, goes_on}
use uthread.Turns.Tally.{Tally}
use uthread.Turns.Begins.{nobody, runtime_init-Represents}
use uthread.Turns.Guest.{still_runs}
use uthread.Turns.Loops.{Guests}
use uthread.Turns.Expiring.{RefusesNegative}
use uthread.Turns.Rounds.{EndsFrom, sched_loop-EndsFrom}

-- a computation ends in one state
one_end : {A : Type 0} (x : Result A) (a b : A) (s t : Rt) → x ≡ ok a s → x ≡ ok b t → s ≡ t
one_end x a b s t left right = cc

module _ ⦃e : Env⦄ (laws : RbLaws e) (mutex : Mutex e) (refuses : RefusesNegative e)
    (allocates : Allocates e) (guests : Guests e 0 0) where
  -- Over a lawful search tree, a mutex that works, memory that suffices, a kernel that removes no negative
  -- descriptor, and while each switch of the scheduler to a uthread runs, up to its switch back, what a
  -- uthread does by the calls of the library: let the first _runtime_init have begun without uthreads,
  -- counted none, and returned 0, and let the main uthread be made. If the scheduler's loop ends the
  -- process, then in a state that turns lead to from that after _runtime_init, in which each uthread has
  -- one place and none runs: either it exits there, and n_uthread is 0 and no uthread is alive there, or
  -- the live uthreads and the creations that failed in these turns are 2 ^ 32 or more; or the process
  -- ends within the round that begins there.
  pub sched_run-EndsFrom :
      (fuel a n : ℕ) (s r m t : Rt) (out : Option Ptr)
      → ((b : Ptr) → is_live (s.heap b) ≡ false)
      → (s.global.all_sched 0).cur_uthread ≡ none
      → s.global.n_uthread ≡ 0
      → runtime_init s ≡ ok 0 r
      → e.reply r.trace Call.calloc ≡ pos a
      → is_null (pos a) ≡ false
      → create_main_enter 0 r ≡ ok out m
      → sched_run fuel m ≡ stop n t
      → EndsFrom 0 0 0 r n t
  unfolding sched_run
  sched_run-EndsFrom fuel a n s r m t out empty idle none_counted ran block there made run =
      let (r', done, begun, dead', number') = runtime_init-Represents allocates s empty idle in
      let same : r' ≡ r = one_end (runtime_init s) 0 0 r' r done ran in
      let begun_r : Represents 0 0 nobody r = subst (Represents 0 0 nobody) same begun in
      let dead : (b : Ptr) → is_live (r.heap b) ≡ false =
        subst (λ (x : Rt). (b : Ptr) → is_live (x.heap b) ≡ false) same dead' in
      let counted : Tally r [] 0 = (
        (λ b. rw (dead b)),
        ap (λ (x : Rt). x.global.n_uthread) (sym same) ∙ number' ∙ none_counted,
      ) in
      let step : Step 0 0 r m = acts (begins_main a out block there (dead a) made) in
      let (q, _, before, _, _) = Step-refines laws mutex 0 0 nobody r m begun_r step in
      let (c, made', _, _, global) = create_main_enter-made 0 0 r a begun_r.bound block there in
      let is : c ≡ m = one_end (create_main_enter 0 r) (some a) out c m made' made in
      let waits : (m.global.all_sched 0).cur_uthread ≡ none =
        ap (λ (x : Rt). (x.global.all_sched 0).cur_uthread) (sym is)
        ∙ ap (λ (g : GlobalData). (g.all_sched 0).cur_uthread) global
        ∙ still_runs 0 0 nobody r begun_r (λ b. refl) in
      sched_loop-EndsFrom laws mutex refuses 0 0 guests fuel nobody r m t n [] 0 begun_r counted
        (q, before, waits, goes_on begins step) (rw (deref-some m.tls m before.own) at run)
