-- ===== src/Machine/Access.antt =====
-- Reading and writing the shared structures.
use uthread.Base.{ℕ, [], ◌∷◌, ◌++◌, update}
use uthread.Status.{set_bit, clear_bit}
use uthread.Types.{Ptr, Uthread, P, Sched, GlobalData, zero_uthread}
use uthread.Machine.Monad.{Cell, absent, live, freed, M, ok, fault, wild_pointer, ◌>>=◌, deref}

-- `ut->...` on the right of an assignment
unfoldable pub load : Ptr → M Uthread
load a s = elim (s.heap a) [
  | absent ↦ fault wild_pointer
  | live u ↦ ok u s
  | freed u ↦ ok u (record s { freed_uses = a ∷ s.freed_uses })
]

-- `ut->... = ...`
unfoldable pub store : Ptr → (Uthread → Uthread) → M (Unit {0})
store a f s = elim (s.heap a) [
  | absent ↦ fault wild_pointer
  | live u ↦ ok tt (record s { heap = update s.heap a (live (f u)) })
  | freed u ↦
      ok tt (record s { heap = update s.heap a (freed (f u)); freed_uses = a ∷ s.freed_uses })
]

-- `free(ut)`
unfoldable pub free : Ptr → M (Unit {0})
free a s = elim (s.heap a) [
  | absent ↦ fault wild_pointer
  | live u ↦ ok tt (record s { heap = update s.heap a (freed u) })
  | freed u ↦ fault wild_pointer
]

-- what the trees compare; an address that holds nothing reads as zeros
abbrev pub peek : (Ptr → Cell) → Ptr → Uthread
peek h a = elim (h a) [ absent ↦ zero_uthread | live u ↦ u | freed u ↦ u ]

abbrev pub modify_global : (GlobalData → GlobalData) → M (Unit {0})
modify_global f s = ok tt (record s { global = f s.global })

-- `all_p[i]` and `all_sched[i]`
abbrev pub get_p : ℕ → M P
get_p i s = ok (s.global.all_p i) s

abbrev pub set_p : ℕ → (P → P) → M (Unit {0})
set_p i f = modify_global λ g. record g { all_p = update g.all_p i (f (g.all_p i)) }

abbrev pub get_sched : ℕ → M Sched
get_sched i s = ok (s.global.all_sched i) s

abbrev pub set_sched : ℕ → (Sched → Sched) → M (Unit {0})
set_sched i f = modify_global λ g. record g { all_sched = update g.all_sched i (f (g.all_sched i)) }

-- `_sched_get()`, where it is dereferenced at once
abbrev pub sched_get : M ℕ
sched_get s = deref s.tls s

-- `ut->p` and `sched->p`, dereferenced
abbrev pub p_of : Uthread → M ℕ
p_of u = deref u.p

abbrev pub sched_p : ℕ → M ℕ
sched_p i = get_sched i >>= λ sc. deref sc.p

-- `ut->status |= BIT(k)` and `ut->status &= CLEARBIT(k)`
abbrev pub status_set : Ptr → ℕ → M (Unit {0})
status_set a k = store a λ u. record u { status = set_bit u.status k }

abbrev pub status_clear : Ptr → ℕ → M (Unit {0})
status_clear a k = store a λ u. record u { status = clear_bit u.status k }

-- `TAILQ_INSERT_TAIL(&p->ready, ut, ready_next)`
abbrev pub ready_insert : ℕ → Ptr → M (Unit {0})
ready_insert i a = set_p i λ p. record p { ready = p.ready ++ (a ∷ []) }
