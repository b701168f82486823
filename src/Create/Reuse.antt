-- ===== src/Create/Reuse.antt =====
-- uthread.c: the order in which uthread_create gives out ids.
use uthread.Base.{ℕ, ◌-◌, ◌≡◌, List, [], ◌∷◌, ◌==◌, if◌then◌else◌}
use uthread.Types.{Ptr, Uthread}
use uthread.Machine.{M, Cell, live, Env, ◌>>◌, pure}
use uthread.Create.{take_id}

-- every block of the list is alive
abbrev pub AllLive : (Ptr → Cell) → List Ptr → Type 0
AllLive h [] = Unit
AllLive h (a ∷ uts) = ((u : Uthread) × (h a ≡ live u)) × AllLive h uts

-- the place of an id in the order 0, 2, 3, ...
abbrev rank : ℕ → ℕ
rank n = if n == 0 then 0 else n - 1

module _ ⦃e : Env⦄ where
  -- the uthreads of the list get their ids, one after another
  abbrev pub number_all : List Ptr → M (Unit {0})
  number_all [] = pure tt
  number_all (a ∷ uts) = do take_id a; number_all uts
