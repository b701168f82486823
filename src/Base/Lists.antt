-- ===== src/Base/Lists.antt =====
-- Lists measured and indexed by native numbers, and the tests on them that the code makes.
use Prim.Native.Nat.{ℕ, zero, suc, ◌+◌}
use mathlib.Core.Path.{◌≡◌, refl}
use mathlib.Core.Bool.{Bool, true, false, ◌||◌}
use mathlib.Core.Option.{Option, none, some}
use mathlib.Core.List.{List, [], ◌∷◌, ◌++◌}
use native.Mathlib.Omega.{arith}
use uthread.Base.Tests.{◌==◌, if◌then◌else◌}

module _ {ℓ} {A : Type ℓ} where
  abbrev pub length : List A → ℕ
  length [] = 0
  length (x ∷ xs) = suc (length xs)

  abbrev pub get_elem? : List A → ℕ → Option A
  get_elem? [] i = none
  get_elem? (x ∷ xs) zero = some x
  get_elem? (x ∷ xs) (suc i) = get_elem? xs i

  abbrev pub drop : ℕ → List A → List A
  drop zero xs = xs
  drop (suc n) [] = []
  drop (suc n) (x ∷ xs) = drop n xs

  abbrev pub is_empty : List A → Bool
  is_empty [] = true
  is_empty (x ∷ xs) = false

  abbrev pub head? : List A → Option A
  head? [] = none
  head? (x ∷ xs) = some x

  abbrev pub get_last? : List A → Option A
  get_last? [] = none
  get_last? (x ∷ []) = some x
  get_last? (x ∷ y ∷ xs) = get_last? (y ∷ xs)

  pub length-append : (xs ys : List A) → length (xs ++ ys) ≡ length xs + length ys
  length-append [] ys = omega arith
  length-append (x ∷ xs) ys = omega (arith, length-append xs ys)

-- The first occurrence of `x` is taken out.
abbrev pub erase : ℕ → List ℕ → List ℕ
erase x [] = []
erase x (y ∷ ys) = if x == y then ys else y ∷ erase x ys

abbrev pub contains : ℕ → List ℕ → Bool
contains x [] = false
contains x (y ∷ ys) = (x == y) || contains x ys

-- A finite map as a function, changed at one place.
abbrev pub update {ℓ} : {A : Type ℓ} → (ℕ → A) → ℕ → A → ℕ → A
update f k v j = if j == k then v else f j

-- How often `v` stands in a list.
abbrev pub count : ℕ → List ℕ → ℕ
count v [] = 0
count v (x ∷ xs) = (if x == v then 1 else 0) + count v xs

pub get_last?-append : (xs : List ℕ) (x : ℕ) → get_last? (xs ++ (x ∷ [])) ≡ some x
get_last?-append [] x = refl
get_last?-append (y ∷ []) x = refl
get_last?-append (y ∷ z ∷ xs) x = get_last?-append (z ∷ xs) x
