-- ===== src/Resume/Joiner.antt =====
-- Ending a uthread that another one has joined.
use uthread.Base.{
  ℕ, ◌≡◌, ◌∙◌, some, true, false, ◌==◌, ==_refl, if◌then◌else◌, [], ◌∷◌, ◌++◌, Bool-cases, inl, inr,
  update,
}
use uthread.Status.{has, set_bit, clear_bit}
use uthread.Status.Laws.{has-set_bit, has-clear_bit}
use uthread.Status.St
use uthread.Types.{Ptr, Uthread, P}
use uthread.Machine.{Rt, ok, Cell, live, Env, load_live, store_live, update_self, deref-some}
use uthread.Sleep.{desched_sleep}
use uthread.Resume.{wake_joiner}

-- the joiner's status when it is made ready
abbrev pub woken : Uthread → Uthread
woken w = record w { status = set_bit (clear_bit w.status St.sleeping) St.ready }

-- a p whose sleeper `j` is ready, last in the queue
abbrev pub with_ready : Env → Ptr → P → P
with_ready e j p = record p { sleeping = e.rb_remove j p.sleeping; ready = p.ready ++ (j ∷ []) }

woken_status :
    (w : Uthread)
    → (has (woken w).status St.sleeping ≡ false) × (has (woken w).status St.ready ≡ true)
woken_status w = (
  has-set_bit (clear_bit w.status 3) 1 3 ∙ has-clear_bit w.status 3 3,
  has-set_bit (clear_bit w.status 3) 1 1,
)

module _ ⦃e : Env⦄ where
  -- The sleeping uthread `j` that joined the ending one leaves the sleeping tree of its p and goes to
  -- the end of that p's ready queue, with its status ready and not sleeping; no other uthread and no
  -- other p changes.
  pub wake_joiner_lem :
      (j k : ℕ) (s : Rt) (w : Uthread)
      → s.heap j ≡ live w
      → has w.status St.sleeping ≡ true
      → w.p ≡ some k
      → (t : Rt) × (wake_joiner (some j) s ≡ ok tt t)
        × ((a : Ptr) → t.heap a ≡ (if a == j then live (woken w) else s.heap a))
        × ((i : ℕ)
            → t.global.all_p i
              ≡ (if i == k then with_ready e j (s.global.all_p k) else s.global.all_p i))
        × (has (woken w).status St.sleeping ≡ false)
        × (has (woken w).status St.ready ≡ true)
  unfolding wake_joiner desched_sleep
  wake_joiner_lem j k s w alive asleep home =
      let off : ℕ → P =
        update s.global.all_p k
          (record (s.global.all_p k) { sleeping = e.rb_remove j (s.global.all_p k).sleeping }) in
      let s1 : Rt = record s { global = record (s.global) { all_p = off } } in
      let clear = λ (v : Uthread). record v { status = clear_bit v.status St.sleeping } in
      let set = λ (v : Uthread). record v { status = set_bit v.status St.ready } in
      let h2 : Ptr → Cell = update s.heap j (live (clear w)) in
      let s2 : Rt = record s1 { heap = h2 } in
      let h3 : Ptr → Cell = update h2 j (live (woken w)) in
      let s3 : Rt = record s1 { heap = h3 } in
      (
        record s3 {
          global = record (s.global) {
            all_p = update off k (record (off k) { ready = (off k).ready ++ (j ∷ []) });
          };
        },
        rw (
          load_live j s alive,
          asleep,
          deref-some w.p s home,
          store_live j s1 clear alive,
          store_live j s2 set (update_self s.heap j (live (clear w))),
          load_live j s3 (update_self h2 j (live (woken w))),
          deref-some w.p s3 home,
        ),
        λ a. elim (Bool-cases (a == j)) [ inl hit ↦ rw hit | inr miss ↦ rw miss ],
        λ i. elim (Bool-cases (i == k)) [ inl hit ↦ rw (hit, ==_refl k) | inr miss ↦ rw miss ],
        (woken_status w).0,
        (woken_status w).1,
      )
