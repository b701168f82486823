-- ===== src/Switch/Start.antt =====
-- The first switch to a new uthread: what `_uthread_init` writes and what `_switch` makes of it.
use uthread.Base.{ℕ, ◌+◌, ◌-◌, ◌%◌, ◌≤◌, ◌≡◌, refl, ◌∙◌, arith}
use uthread.Types.{Ptr, Uthread, Context}
use uthread.Machine.{Rt, ok, live, Env, load, store}
use uthread.Lifecycle.{uthread_init}
use uthread.Switch.{rsp, rsi, rdi, Cpu, exec, exec_all, reg_code, switch_x86_64}
use uthread.Switch.Laws.{Apart}

-- the first three words of a `struct context` in memory
abbrev pub ContextAt : (ℕ → ℕ) → ℕ → Context → Type 0
ContextAt m a ctx = (m a ≡ ctx.esp) × (m (a + 8) ≡ ctx.ebp) × (m (a + 16) ≡ ctx.eip)

switch_jumps :
    (d : Cpu) (ctx : Context)
    → Apart 64 (d.reg rsi) (d.reg rdi)
    → ContextAt d.mem (d.reg rdi) ctx
    → let d' = exec_all switch_x86_64 d in
      (d'.rip ≡ ctx.eip) × (d'.reg rdi ≡ d.reg rdi) × (d'.reg rsp ≡ ctx.esp + 8)
unfolding exec_all exec reg_code
switch_jumps d ctx h k = ground arith

module _ ⦃e : Env⦄ where
  init_lem :
      (ut : Ptr) (s t : Rt) (u : Uthread)
      → s.heap ut ≡ live u
      → uthread_init ut s ≡ ok tt t
      → (v : Uthread) × (t.heap ut ≡ live v)
        × (v.ctx.eip ≡ e.exec_address)
        × (v.ctx.esp ≡ u.stack + u.stack_size - 32)
  unfolding uthread_init load store
  init_lem ut s t u alive done = (
    record u {
      ctx = record (u.ctx) {
        esp = u.stack + u.stack_size - 32;
        ebp = u.stack + u.stack_size - 24;
        eip = e.exec_address;
      };
      status = 2;
    },
    ground arith,
    refl,
    refl,
  )

  -- After `_uthread_init`, the switch to a uthread whose control block lies at the address `ut`
  -- enters `_uthread_exec` with `ut` as its first argument, since the context is the first field, on
  -- the uthread's own stack. The stack pointer is 8 short of a multiple of 16 if the end of the stack
  -- is one, as the calling convention wants at the entry of a function.
  pub init_then_switch :
      (ut : Ptr) (s t : Rt) (u v : Uthread) (d : Cpu)
      → s.heap ut ≡ live u
      → uthread_init ut s ≡ ok tt t
      → t.heap ut ≡ live v
      → d.reg rdi ≡ ut
      → ContextAt d.mem ut v.ctx
      → Apart 64 (d.reg rsi) (d.reg rdi)
      → (u.stack + u.stack_size) % 16 ≡ 0
      → 32 ≤ u.stack_size
      → let d' = exec_all switch_x86_64 d in
        (d'.rip ≡ e.exec_address)
        × (d'.reg rdi ≡ ut)
        × (d'.reg rsp ≡ u.stack + u.stack_size - 24)
        × (d'.reg rsp % 16 ≡ 8)
  init_then_switch ut s t u v d alive done alive' first words apart aligned room =
      let (v', same, code, stack) = init_lem ut s t u alive done in
      let is : v' ≡ v = ground arith in
      let (at, arg, top) = switch_jumps d v.ctx apart (rw first words) in
      let code' : v.ctx.eip ≡ e.exec_address = rw (← is) code in
      let stack' : v.ctx.esp ≡ u.stack + u.stack_size - 32 = rw (← is) stack in
      let end : (exec_all switch_x86_64 d).reg rsp ≡ u.stack + u.stack_size - 24 = omega arith in
      (at ∙ code', arg ∙ first, end, rw end (omega arith))
