-- ===== src/Turns/Joins.antt =====
-- The running uthread joins another one, and sleeps until that one ends.
use uthread.Base.{
  minus_one, ℕ, ◌≡◌, refl, ap, ◌∙◌, Option, none, some, true, false, ◌==◌, ==_refl, if◌then◌else◌,
  count, update, arith, Bool-cases, inl, inr,
}
use uthread.Types.{Ptr, Uthread, GlobalData}
use uthread.Machine.{M, Rt, ok, Cell, live, Env, store_live, update_self, ◌>>◌}
use uthread.Join.{join_mark, join_msec}
use uthread.Turns.Links.{joined_by}
use uthread.Resume.Leave.{idle_sched}
use uthread.Turns.{waits_for, Place, Represents}
use uthread.Turns.Facts.{Represents-running, running_alone}
use uthread.Turns.Trees.{RbLaws}
use uthread.Turns.Sleep.{Slept, lying, with_sleeping, turn_sleep, turn_sleep_lem}
use uthread.Turns.Asleep.{slept-Represents}
use uthread.Turns.Waits.{plain_Ready}
use uthread.Turns.Links.{linked, nobody_joined}

join_mark_lem :
    (b a : Ptr) (retval : Option ℕ) (s : Rt) (w : Uthread)
    → s.heap b ≡ live w
    → join_mark b a retval s
      ≡ ok tt (record s {
        heap =
            update
              (update s.heap b (live (record w { ut_joined = some a })))
              b
              (live (joined_by (some a) retval w));
      })
unfolding join_mark
join_mark_lem b a retval s w block =
    let set = λ (v : Uthread). record v { ut_joined = some a } in
    let give = λ (v : Uthread). record v { retval = retval } in
    let s1 : Rt = record s { heap = update s.heap b (live (set w)) } in
    rw (store_live b s set block, store_live b s1 give (update_self s.heap b (live (set w))))

module _ ⦃e : Env⦄ where
  -- `a` joins `b`, and sleeps
  unfoldable pub turn_join : ℕ → Ptr → Ptr → Option ℕ → M (Unit {0})
  turn_join i a b retval = do join_mark b a retval; turn_sleep i a join_msec

module _ ⦃e : Env⦄ (laws : RbLaws e) where
  -- the state with the block of `b` as it was before the mark
  abbrev unmarked : Ptr → Cell → Rt → Rt
  unmarked b c m = record m { heap = update m.heap b c }

  Slept-unmarked :
      (j : ℕ) (a b : Ptr) (u w : Uthread) (s r m : Rt)
      → (a == b) ≡ false
      → r.tls ≡ s.tls
      → r.global ≡ s.global
      → ((x : Ptr) → r.heap x ≡ (if x == b then live w else s.heap x))
      → Slept e j a u r m
      → Slept e j a u s (unmarked b (s.heap b) m)
  Slept-unmarked j a b u w s r m apart own global heap k = record {
    order = k.order;
    block = k.block;
    new = rw (← global) k.new;
    own = k.own ∙ own;
    heap = λ x. elim (Bool-cases (x == b)) [
      | inl hit ↦
          let is : x ≡ b = ground arith in
          let other : (x == a) ≡ false = ground arith in rw (hit, other, is)
      | inr miss ↦
          rw miss (k.heap x ∙ ap (λ c. if x == a then live k.block else c) (rw miss at (heap x)))
    ];
    global =
        k.global
        ∙ ap (λ (g : GlobalData). with_sleeping j (e.rb_insert k.order a (g.all_p j).sleeping).0 g)
            global;
    home = k.home;
    joined = k.joined;
    key = k.key;
    status = k.status;
  }

  pub turn_join-Represents :
      (i j : ℕ) (place : Ptr → Place) (s t : Rt) (a b : Ptr) (retval : Option ℕ) (w : Uthread)
      → Represents i j place s
      → (s.global.all_sched i).cur_uthread ≡ some a
      → s.heap b ≡ live w
      → (a == b) ≡ false
      → w.ut_joined ≡ none
      → waits_for (s.heap a) ≡ minus_one
      → turn_join i a b retval s ≡ ok tt t
      → Represents i j (update place a Place.asleep) t × (t.global.n_uthread ≡ s.global.n_uthread)
  unfolding turn_join Slept-unmarked
  turn_join-Represents i j place s t a b retval w before cur block apart unjoined free run =
      let (runs, (u, alive, home, going, awake)) = Represents-running i j place s a before cur in
      let (no_ready, no_sleep, no_wait) = running_alone i j place s a before runs in
      let apart' : (b == a) ≡ false = ground arith in
      let w' : Uthread = joined_by (some a) retval w in
      let r : Rt = record s {
        heap = update (update s.heap b (live (record w { ut_joined = some a }))) b (live w');
      } in
      let r_heap : (x : Ptr) → r.heap x ≡ (if x == b then live w' else s.heap x) =
        λ x. elim (Bool-cases (x == b)) [ inl hit ↦ rw hit | inr miss ↦ rw miss ] in
      let sleeps : turn_sleep i a join_msec r ≡ ok tt t =
        rw (join_mark_lem b a retval s w block) at run in
      let alive' : r.heap a ≡ live u = r_heap a ∙ rw apart alive in
      let (m, k, end) =
        turn_sleep_lem i j a join_msec r t u before.own before.bound cur alive' home going sleeps in
      let k' = Slept-unmarked j a b u w' s r m apart refl refl r_heap k in
      let asleep' =
        slept-Represents laws i j place s s (unmarked b (s.heap b) m) a u (s.global.all_p j).waiting
          before cur (plain_Ready i j place s a u before cur alive home going free) k' in
      let untouched : (c : Ptr) (v : Uthread)
          → s.heap c ≡ live v
          → v.ut_joined ≡ some a
          → false ≡ true =
        λ c v stood link. let (stays, _) = before.joiners c a v stood link in cc in
      let done =
        linked i j (update place a Place.asleep)
          (record m {
            heap = update (update m.heap b (s.heap b)) a (live (lying ⦃e = e⦄ k.block));
            global = idle_sched i m.global;
          })
          (record m {
            heap = update m.heap a (live (lying ⦃e = e⦄ k.block));
            global = idle_sched i m.global;
          })
          a b retval w asleep' refl refl (rw apart' (rw (==_refl b) block))
          (λ x. elim (Bool-cases (x == b)) [
            | inl hit ↦
                let other : (x == a) ≡ false = ground arith in
                let back : r.heap x ≡ live w' = r_heap x ∙ rw hit in
                rw (hit, other) (k.heap x ∙ rw other back)
            | inr miss ↦ rw miss
          ])
          (rw (==_refl a))
          (ap (λ (g : GlobalData). count a (g.all_p j).waiting) k.global ∙ rw (==_refl j) no_wait)
          (nobody_joined a b s
            (update (update m.heap b (s.heap b)) a (live (lying ⦃e = e⦄ k.block))) u w
            (lying ⦃e = e⦄ k.block) untouched alive k.joined (rw (==_refl a))
            (rw apart' (rw (==_refl b) block)) unjoined
            (λ c miss far. rw (miss, far) (k.heap c ∙ rw miss (r_heap c ∙ rw far)))) in
      rw end (done, ap (λ (g : GlobalData). g.n_uthread) k.global)
