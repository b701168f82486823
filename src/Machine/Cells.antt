-- ===== src/Machine/Cells.antt =====
-- What an access does at an address whose cell is known.
use uthread.Base.{◌≡◌, ap, Option, some, ◌∷◌, update, ==_refl}
use uthread.Types.{Ptr, Uthread}
use uthread.Machine.Monad.{live, freed, Rt, ok, deref}
use uthread.Machine.Access.{load, store, free}

module _ (a : Ptr) (s : Rt) {u : Uthread} where
  pub load_live : s.heap a ≡ live u → load a s ≡ ok u s
  unfolding load
  load_live h = rw (h, load)

  pub load_freed : s.heap a ≡ freed u → load a s ≡ ok u (record s { freed_uses = a ∷ s.freed_uses })
  unfolding load
  load_freed h = rw (h, load)

  pub store_live :
      (f : Uthread → Uthread)
      → s.heap a ≡ live u
      → store a f s ≡ ok tt (record s { heap = update s.heap a (live (f u)) })
  unfolding store
  store_live f h = rw (h, store)

  pub free_live :
      s.heap a ≡ live u → free a s ≡ ok tt (record s { heap = update s.heap a (freed u) })
  unfolding free
  free_live h = rw (h, free)

pub update_self {ℓ} : {A : Type ℓ} (f : Ptr → A) (a : Ptr) (v : A) → update f a v a ≡ v
update_self f a v = rw (==_refl a)

-- A pointer that is not NULL; at `s.tls` this is `sched_get`, and `rw` by the equation itself would
-- also rewrite the field of `s`.
pub deref-some : {A : Type 0} (o : Option A) {a : A} (s : Rt) → o ≡ some a → deref o s ≡ ok a s
deref-some o s h = ap (λ p. deref p s) h
