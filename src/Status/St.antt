-- ===== src/Status/St.antt =====
-- `enum uthread_st` of uthread_inner.h: the position of each state's bit in the status word.
use Prim.Native.Nat.{ℕ}

abbrev pub new : ℕ
new = 0

abbrev pub ready : ℕ
ready = 1

abbrev pub exited : ℕ
exited = 2

abbrev pub sleeping : ℕ
sleeping = 3

abbrev pub detached : ℕ
detached = 4

abbrev pub expired : ℕ
expired = 5

abbrev pub fdeof : ℕ
fdeof = 6

abbrev pub wait_rd : ℕ
wait_rd = 7

abbrev pub wait_wr : ℕ
wait_wr = 8
