-- ===== src/Switch/Laws.antt =====
-- What a switch saves and what it brings back.
use uthread.Base.{ℕ, ◌+◌, ◌≤◌, ◌<◌, ◌≡◌, ◌⊎◌, ◌∙◌, arith}
use native.Mathlib.Nat.{add-zero}
use uthread.Switch.{
  rsp, rbp, rbx, rsi, rdi, r12, r13, r14, r15, Cpu, exec, exec_all, reg_code, switch_x86_64,
}

-- two areas of `n` bytes that do not overlap
abbrev pub Apart : ℕ → ℕ → ℕ → Type 0
Apart n a b = (a + n ≤ b) ⊎ (b + n ≤ a)

-- The words of memory that stand for a context saved on x86-64.
abbrev pub Holds : (ℕ → ℕ) → ℕ → Cpu → Type 0
Holds m a c =
    (m a ≡ c.reg rsp)
    × (m (a + 8) ≡ c.reg rbp)
    × (m (a + 16) ≡ c.mem (c.reg rsp))
    × (m (a + 24) ≡ c.reg rbx)
    × (m (a + 32) ≡ c.reg r12)
    × (m (a + 40) ≡ c.reg r13)
    × (m (a + 48) ≡ c.reg r14)
    × (m (a + 56) ≡ c.reg r15)

-- `c'` runs on as `c` does after the return of the call that it stands in.
abbrev pub Continues : Cpu → Cpu → Type 0
Continues c c' =
    (c'.rip ≡ c.mem (c.reg rsp))
    × (c'.reg rsp ≡ c.reg rsp + 8)
    × (c'.reg rbp ≡ c.reg rbp)
    × (c'.reg rbx ≡ c.reg rbx)
    × (c'.reg r12 ≡ c.reg r12)
    × (c'.reg r13 ≡ c.reg r13)
    × (c'.reg r14 ≡ c.reg r14)
    × (c'.reg r15 ≡ c.reg r15)

-- the stack that the new context brings
abbrev new_stack : Cpu → ℕ
new_stack c = c.mem (c.reg rdi)

switch_saves :
    (c : Cpu)
    → Apart 64 (c.reg rsi) (c.reg rdi)
    → Apart 64 (c.reg rsi) (c.reg rsp)
    → Apart 64 (c.reg rsi) (new_stack c)
    → Holds (exec_all switch_x86_64 c).mem (c.reg rsi) c
unfolding exec_all exec reg_code
switch_saves c h k l = (
  ground arith,
  ground arith,
  ground arith,
  ground arith,
  ground arith,
  ground arith,
  ground arith,
  ground arith,
)

switch_restores :
    (c d : Cpu)
    → Apart 64 (d.reg rsi) (d.reg rdi)
    → Holds d.mem (d.reg rdi) c
    → Continues c (exec_all switch_x86_64 d)
unfolding exec_all exec reg_code
switch_restores c d h k = ground arith

-- A context `c` that switches away to `new`, and to which some later switch `d` comes back, runs on
-- after its call with the registers that a callee must keep, as if the call had returned. Between
-- the two the 64 bytes of its `struct context` are left alone, and the areas that the two switches
-- write do not overlap.
pub switch_round_trip :
    (c d : Cpu)
    → Apart 64 (c.reg rsi) (c.reg rdi)
    → Apart 64 (c.reg rsi) (c.reg rsp)
    → Apart 64 (c.reg rsi) (c.mem (c.reg rdi))
    → d.reg rdi ≡ c.reg rsi
    → Apart 64 (d.reg rsi) (d.reg rdi)
    → ((k : ℕ) → k < 64 → d.mem (c.reg rsi + k) ≡ (exec_all switch_x86_64 c).mem (c.reg rsi + k))
    → Continues c (exec_all switch_x86_64 d)
switch_round_trip c d h k l back h' same =
    let (w0, w8, w16, w24, w32, w40, w48, w56) = switch_saves c h k l in
    switch_restores c d h' (
      rw back (
        first ∙ w0,
        same 8 (omega arith) ∙ w8,
        same 16 (omega arith) ∙ w16,
        same 24 (omega arith) ∙ w24,
        same 32 (omega arith) ∙ w32,
        same 40 (omega arith) ∙ w40,
        same 48 (omega arith) ∙ w48,
        same 56 (omega arith) ∙ w56,
      ))
  where
    first : d.mem (c.reg rsi) ≡ (exec_all switch_x86_64 c).mem (c.reg rsi)
    first = rw add-zero at (same 0 (omega arith))
