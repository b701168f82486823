-- ===== src/Tests/I386.antt =====
-- The theorem on `_switch` on i386, at concrete registers.
use uthread.Base.{ℕ, refl, inr, inl, arith, ◌==◌, if◌then◌else◌}
use uthread.Switch.{Reg, rsp, Cpu, exec_all, switch_i386}
use uthread.Switch.I386.{Continues, i386_round_trip}

abbrev registers : ℕ → Reg → ℕ
registers stack rsp = stack
registers stack _ = 9

-- The context at 2000 leaves for the one at 1000, whose stack is at 6000.
abbrev leaving : Cpu
leaving = record {
  reg = registers 5000;
  mem = λ a. if a == 5004 then 1000 else if a == 5008 then 2000 else if a == 1000 then 6000 else 3;
  rip = 0;
}

-- The one at 1000 comes back, with its arguments at 7004 and 7008.
abbrev returning : Cpu
returning = record {
  reg = registers 7000;
  mem = λ a.
      if a == 7004 then 2000 else if a == 7008 then 1000 else (exec_all switch_i386 leaving).mem a;
  rip = 0;
}

i386_round_trip_example : Continues leaving (exec_all switch_i386 returning)
i386_round_trip_example =
    i386_round_trip leaving returning (inr (omega arith)) (inl (omega arith)) (inl (omega arith))
      refl (inl (omega arith)) (inl (omega arith)) (λ k h. ground arith)
