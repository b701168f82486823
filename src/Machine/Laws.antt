-- ===== src/Machine/Laws.antt =====
-- Laws of sequencing, and the inversion of a sequence that ends well.
use uthread.Base.{ℕ, ◌≡◌, refl, ap, ◌⊎◌, inl, inr}
use uthread.Machine.Monad.{M, Rt, Result, ok, fault, stop, bind_result}

module _ {A B : Type 0} where
  pub bind_assoc :
      {C : Type 0} (r : Result A) (f : A → M B) (g : B → M C)
      → bind_result (bind_result r f) g ≡ bind_result r (λ a s. bind_result (f a s) g)
  bind_assoc (ok a s) f g = refl
  bind_assoc (fault x) f g = refl
  bind_assoc (stop n s) f g = refl

  pub bind_ext :
      (r : Result A) (f g : A → M B)
      → ((a : A) (s : Rt) → f a s ≡ g a s)
      → bind_result r f ≡ bind_result r g
  bind_ext (ok a s) f g h = h a s
  bind_ext (fault x) f g h = refl
  bind_ext (stop n s) f g h = refl

  -- Inversion of a sequence that ends well.
  pub bind-eq-ok :
      (r : Result A) (k : A → M B) {b : B} {t : Rt}
      → bind_result r k ≡ ok b t
      → (a : A) × (s : Rt) × (r ≡ ok a s) × (k a s ≡ ok b t)
  bind-eq-ok (ok a s) k h = (a, s, refl, h)
  bind-eq-ok (fault x) k h = cc
  bind-eq-ok (stop n s) k h = cc

  -- the same end of the process, in another type
  abbrev ends_as : Result B → Result A
  ends_as (ok b s) = stop 0 s
  ends_as (fault x) = fault x
  ends_as (stop n s) = stop n s

  -- A sequence that ends the process ends it in its first part or in the second.
  pub bind-eq-stop :
      (r : Result A) (k : A → M B) {n : ℕ} {t : Rt}
      → bind_result r k ≡ stop n t
      → (r ≡ stop n t) ⊎ ((a : A) × (s : Rt) × (r ≡ ok a s) × (k a s ≡ stop n t))
  bind-eq-stop (ok a s) k h = inr (a, s, refl, h)
  bind-eq-stop (fault x) k h = cc
  bind-eq-stop (stop m s) k h = inl (ap ends_as h)
