-- ===== src/Tests/Contexts.antt =====
-- The theorems on `_switch`, at concrete registers.
use uthread.Base.{ℕ, ◌%◌, ◌≡◌, refl, inl, inr, none, [], arith, ◌==◌, if◌then◌else◌}
use uthread.Types.{Uthread, zero_context}
use uthread.Machine.{Rt, load, store}
use uthread.Lifecycle.{uthread_init}
use uthread.Tests.Setup.{env, a_uthread, one, state, after}
use uthread.Switch.{Reg, rsp, rsi, rdi, Cpu, exec_all, switch_x86_64}
use uthread.Switch.Laws.{Continues, switch_round_trip}
use uthread.Switch.Start.{init_then_switch}

abbrev registers : ℕ → ℕ → ℕ → Reg → ℕ
registers new cur stack rdi = new
registers new cur stack rsi = cur
registers new cur stack rsp = stack
registers new cur stack _ = 9

-- The context at 2000 leaves for the one at 1000, whose stack is at 6000.
abbrev leaving : Cpu
leaving = record {
  reg = registers 1000 2000 5000;
  mem = λ a. if a == 1000 then 6000 else 3;
  rip = 0;
}

abbrev returning : Cpu
returning = record {
  reg = registers 2000 1000 6000;
  mem = (exec_all switch_x86_64 leaving).mem;
  rip = 0;
}

switch_round_trip_example : Continues leaving (exec_all switch_x86_64 returning)
switch_round_trip_example =
    switch_round_trip leaving returning (inr (omega arith)) (inl (omega arith)) (inl (omega arith))
      refl (inl (omega arith)) (λ k h. refl)

abbrev fresh : Rt
fresh = state (one 100 (record a_uthread { status = 1 })) [] none

abbrev initialised : Uthread
initialised = record a_uthread {
  ctx = record zero_context { esp = 196576; ebp = 196584; eip = 4198400 };
  status = 2;
}

-- its control block in memory
abbrev entering : Cpu
entering = record {
  reg = registers 100 2000 5000;
  mem = λ a.
      if a == 100 then 196576 else if a == 108 then 196584 else if a == 116 then 4198400 else 0;
  rip = 0;
}

init_then_switch_example :
    let d = exec_all switch_x86_64 entering in
    (d.rip ≡ 4198400) × (d.reg rdi ≡ 100) × (d.reg rsp ≡ 196584) × (d.reg rsp % 16 ≡ 8)
unfolding uthread_init load store
init_then_switch_example =
    init_then_switch ⦃e = env⦄ 100 fresh (after (uthread_init 100 fresh) fresh)
      (record a_uthread { status = 1 }) initialised entering refl refl refl refl (refl, refl, refl)
      (inr (omega arith)) refl (omega arith)
