-- ===== src/Turns/Trees.antt =====
-- What the code relies on of tree.h, whose operations are parameters. A tree is the list of its
-- members; a search and an insertion compare with the members' keys.
use uthread.Base.{true, false, ◌<◌, ◌≡◌, none, some, List, ◌==◌, if◌then◌else◌, ℤ, pos, count}
use uthread.Types.{Ptr}
use uthread.Machine.{Env}

pub record RbLaws (e : Env) : Type 0 where
  -- RB_INSERT of a new node adds it, where it finds no equal one, and otherwise gives back an equal
  -- member and changes nothing.
  pub inserted :
      (order : Ptr → Ptr → ℤ) (a : Ptr) (l : List Ptr)
      → count a l ≡ 0
      → (e.rb_insert order a l).1 ≡ none
      → (b : Ptr) → count b (e.rb_insert order a l).0 ≡ (if b == a then 1 else count b l)
  pub refused :
      (order : Ptr → Ptr → ℤ) (a x : Ptr) (l : List Ptr)
      → (e.rb_insert order a l).1 ≡ some x
      → (0 < count x l) × (order a x ≡ pos 0) × ((e.rb_insert order a l).0 ≡ l)
  -- RB_REMOVE takes out the node that it is given.
  pub removed :
      (a : Ptr) (l : List Ptr)
      → count a l ≡ 1
      → (b : Ptr) → count b (e.rb_remove a l) ≡ (if b == a then 0 else count b l)
  -- RB_FIND gives a member that is equal to what is looked for, if there is one.
  pub found :
      (order : Ptr → ℤ) (x : Ptr) (l : List Ptr)
      → e.rb_find order l ≡ some x
      → (0 < count x l) × (order x ≡ pos 0)
  pub missed :
      (order : Ptr → ℤ) (x : Ptr) (l : List Ptr)
      → e.rb_find order l ≡ none
      → 0 < count x l
      → order x ≡ pos 0
      → false ≡ true
  -- RB_MIN gives a member.
  pub least : (a : Ptr) (l : List Ptr) → e.rb_min l ≡ some a → 0 < count a l
