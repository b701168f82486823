-- ===== src/Tests/Begin.antt =====
-- The start of a program, at a concrete state.
use uthread.Turns.Tally.{Tally}
use uthread.Base.{List, refl, none, some, []}
use uthread.Types.{Ptr}
use uthread.Machine.{Rt, absent, store, syscall}
use uthread.Tests.Setup.{globals, state, after}
use uthread.Tests.Trees.{forest, forest_laws}
use uthread.Create.{
  runtime_init, init_loop, start_first, init_global, init_sched, init_p, create_main_enter,
  calloc_uthread,
}
use uthread.Timer.{create_timewheel}
use uthread.Turns.{Place, Represents}
use uthread.Turns.Step.{Step, acts, begins_main}
use uthread.Turns.Reaches.{failures, Moves, begins, goes_on}
use uthread.Turns.Begins.{nobody, runtime_init-refines}

abbrev pub nothing : Rt
nothing = record (state (λ a. absent) [] none) {
  global = record (globals [] none) { n_uthread = 0 };
}

abbrev ready : Rt
ready = after (runtime_init ⦃e = forest⦄ nothing) nothing

abbrev with_main : Rt
with_main = after (create_main_enter ⦃e = forest⦄ 0 ready) ready

main_Step : Step ⦃e = forest⦄ 0 0 ready with_main
unfolding runtime_init init_loop syscall start_first init_p init_sched init_global create_timewheel
    create_main_enter calloc_uthread store
main_Step = acts (begins_main 4096 (some 4096) refl refl refl refl)

runtime_init-refines_example :
    ((q : Ptr → Place) × Moves nobody q × Represents 0 0 q with_main)
    × ((now : List Ptr) × Tally with_main now (failures ⦃e = forest⦄ (goes_on begins main_Step) 0))
unfolding runtime_init init_loop syscall start_first init_p init_sched init_global create_timewheel
runtime_init-refines_example =
    runtime_init-refines ⦃e = forest⦄ forest_laws (λ tr. (refl, refl)) (λ tr. refl) nothing ready
      with_main (λ a. refl) refl refl refl (goes_on begins main_Step)
