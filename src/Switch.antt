-- ===== src/Switch.antt =====
-- uthread.c: `_switch`, the assembly that changes contexts, instruction by instruction for x86-64
-- and for i386.
pub mod I386
pub mod Laws
pub mod Start
use uthread.Base.{ℕ, ◌+◌, ◌==◌, if◌then◌else◌, List, [], ◌∷◌, update}

-- On i386 the same registers are half as wide, and rax, rbx, rdx, rsi, rdi stand for eax and so on.
pub data Reg : Type 0 where
  rsp rbp rax rbx rdx rsi rdi r12 r13 r14 r15 : Reg

pub record Cpu : Type 0 where
  pub reg : Reg → ℕ
  pub mem : ℕ → ℕ
  pub rip : ℕ

-- a `mov` between a register and memory at a register and an offset, and `ret`
pub data Instr : Type 0 where
  save : Reg → ℕ → Reg → Instr
  restore : ℕ → Reg → Reg → Instr
  ret : ℕ → Instr

pub reg_code : Reg → ℕ
reg_code rsp = 0
reg_code rbp = 1
reg_code rax = 2
reg_code rbx = 3
reg_code rdx = 4
reg_code rsi = 5
reg_code rdi = 6
reg_code r12 = 7
reg_code r13 = 8
reg_code r14 = 9
reg_code r15 = 10

-- one instruction; `ret w` pops a word of `w` bytes
pub exec : Instr → Cpu → Cpu
exec (save r off b) c = record c { mem = update c.mem (c.reg b + off) (c.reg r) }
exec (restore off b r) c = record c {
  reg = λ q. if reg_code q == reg_code r then c.mem (c.reg b + off) else c.reg q;
}
exec (ret w) c = record c {
  reg = λ q. if reg_code q == 0 then c.reg rsp + w else c.reg q;
  rip = c.mem (c.reg rsp);
}

pub exec_all : List Instr → Cpu → Cpu
exec_all [] c = c
exec_all (i ∷ is) c = exec_all is (exec i c)

-- `_switch(new_ctx in rdi, cur_ctx in rsi)`
abbrev pub switch_x86_64 : List Instr
switch_x86_64 =
    save rsp 0 rsi
    ∷ save rbp 8 rsi
    ∷ restore 0 rsp rax
    ∷ save rax 16 rsi
    ∷ save rbx 24 rsi
    ∷ save r12 32 rsi
    ∷ save r13 40 rsi
    ∷ save r14 48 rsi
    ∷ save r15 56 rsi
    ∷ restore 56 rdi r15
    ∷ restore 48 rdi r14
    ∷ restore 40 rdi r13
    ∷ restore 32 rdi r12
    ∷ restore 24 rdi rbx
    ∷ restore 8 rdi rbp
    ∷ restore 0 rdi rsp
    ∷ restore 16 rdi rax
    ∷ save rax 0 rsp
    ∷ ret 8
    ∷ []

-- the same on i386, whose arguments are on the stack
abbrev pub switch_i386 : List Instr
switch_i386 =
    restore 8 rsp rdx
    ∷ save rsp 0 rdx
    ∷ save rbp 4 rdx
    ∷ restore 0 rsp rax
    ∷ save rax 8 rdx
    ∷ save rbx 12 rdx
    ∷ save rsi 16 rdx
    ∷ save rdi 20 rdx
    ∷ restore 4 rsp rdx
    ∷ restore 20 rdx rdi
    ∷ restore 16 rdx rsi
    ∷ restore 12 rdx rbx
    ∷ restore 0 rdx rsp
    ∷ restore 4 rdx rbp
    ∷ restore 8 rdx rax
    ∷ save rax 0 rsp
    ∷ ret 4
    ∷ []
