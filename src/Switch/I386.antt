-- ===== src/Switch/I386.antt =====
-- The switch on i386: its two contexts are arguments on the stack, at 4 and 8 from its top.
use uthread.Base.{ℕ, ◌+◌, ◌<◌, ◌≡◌, ◌∙◌, arith}
use native.Mathlib.Nat.{add-zero}
use uthread.Switch.{rsp, rbp, rbx, rsi, rdi, Cpu, exec, exec_all, reg_code, switch_i386}
use uthread.Switch.Laws.{Apart}

-- the contexts to go to and to leave
abbrev pub new_ctx : Cpu → ℕ
new_ctx c = c.mem (c.reg rsp + 4)

abbrev pub cur_ctx : Cpu → ℕ
cur_ctx c = c.mem (c.reg rsp + 8)

-- The words of memory that stand for a context saved on i386.
abbrev pub Holds : (ℕ → ℕ) → ℕ → Cpu → Type 0
Holds m a c =
    (m a ≡ c.reg rsp)
    × (m (a + 4) ≡ c.reg rbp)
    × (m (a + 8) ≡ c.mem (c.reg rsp))
    × (m (a + 12) ≡ c.reg rbx)
    × (m (a + 16) ≡ c.reg rsi)
    × (m (a + 20) ≡ c.reg rdi)

-- `c'` runs on as `c` does after the return of the call that it stands in.
abbrev pub Continues : Cpu → Cpu → Type 0
Continues c c' =
    (c'.rip ≡ c.mem (c.reg rsp))
    × (c'.reg rsp ≡ c.reg rsp + 4)
    × (c'.reg rbp ≡ c.reg rbp)
    × (c'.reg rbx ≡ c.reg rbx)
    × (c'.reg rsi ≡ c.reg rsi)
    × (c'.reg rdi ≡ c.reg rdi)

restores :
    (c d : Cpu)
    → Apart 24 (cur_ctx d) (new_ctx d)
    → Apart 24 (cur_ctx d) (d.reg rsp)
    → Holds d.mem (new_ctx d) c
    → Continues c (exec_all switch_i386 d)
unfolding exec_all exec reg_code
restores c d h k l = ground arith

saves :
    (c : Cpu)
    → Apart 24 (cur_ctx c) (new_ctx c)
    → Apart 24 (cur_ctx c) (c.reg rsp)
    → Apart 24 (cur_ctx c) (c.mem (new_ctx c))
    → Holds (exec_all switch_i386 c).mem (cur_ctx c) c
unfolding exec_all exec reg_code
saves c h k l = (ground arith, ground arith, ground arith, ground arith, ground arith, ground arith)

-- On i386, a context `c` that switches away and to which some later switch `d` comes back runs on
-- after its call with the registers that a callee must keep. Between the two the 24 bytes of its
-- `struct context` that the switch uses are left alone, and the areas that the two switches write do
-- not overlap.
pub i386_round_trip :
    (c d : Cpu)
    → Apart 24 (cur_ctx c) (new_ctx c)
    → Apart 24 (cur_ctx c) (c.reg rsp)
    → Apart 24 (cur_ctx c) (c.mem (new_ctx c))
    → new_ctx d ≡ cur_ctx c
    → Apart 24 (cur_ctx d) (new_ctx d)
    → Apart 24 (cur_ctx d) (d.reg rsp)
    → ((k : ℕ) → k < 24 → d.mem (cur_ctx c + k) ≡ (exec_all switch_i386 c).mem (cur_ctx c + k))
    → Continues c (exec_all switch_i386 d)
i386_round_trip c d h k l back h' k' same =
    let (w0, w4, w8, w12, w16, w20) = saves c h k l in
    let first : d.mem (cur_ctx c) ≡ (exec_all switch_i386 c).mem (cur_ctx c) =
      rw add-zero at (same 0 (omega arith)) in
    restores c d h' k' (
      rw back (
        first ∙ w0,
        same 4 (omega arith) ∙ w4,
        same 8 (omega arith) ∙ w8,
        same 12 (omega arith) ∙ w12,
        same 16 (omega arith) ∙ w16,
        same 20 (omega arith) ∙ w20,
      ))
