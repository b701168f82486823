-- ===== src/Turns/Main.antt =====
-- The main uthread is made, before the first switch.
use uthread.Base.{
  sym, ap, ◌∙◌, if◌then◌else◌, ℕ, ◌+◌, ◌%◌, ◌^◌, ◌≡◌, refl, Option, none, some, false, ◌∷◌, ◌==◌,
  ==_refl, update, Bool-cases, inl, inr, pos, minus_one,
}
use uthread.Status.{has, bit}
use uthread.Status.St
use uthread.Types.{Ptr, Uthread, GlobalData, zero_uthread}
use uthread.Machine.{Rt, ok, Cell, live, Env, Call, store_live, update_self, deref-some}
use uthread.Create.{create_main_enter, is_null}
use uthread.Create.Made.{enqueued, calloc_uthread_lem}
use uthread.Turns.{one_more, Place, is_live, Represents}
use uthread.Turns.Creates.{made-Represents}

-- the states of a new uthread and of the main one
pub new_status :
    (has (bit St.new) St.exited ≡ false)
    × (has (bit St.new) St.sleeping ≡ false)
    × (has (bit St.ready) St.exited ≡ false)
    × (has (bit St.ready) St.sleeping ≡ false)
unfolding has
new_status = (refl, refl, refl, refl)

-- the main uthread
abbrev pub main_uthread : Option ℕ → Uthread
main_uthread home = record zero_uthread {
  is_main = 1;
  id = 0;
  status = bit St.ready;
  ut_joined = none;
  p = home;
  fd_wait = minus_one;
  is_wating_yield_signal = 1;
}

-- one uthread more, the main one, last in the ready queue of p `j`
abbrev pub main_counted : ℕ → Ptr → GlobalData → GlobalData
main_counted j a g =
    let noted : GlobalData = record g {
      bitmap_ut = update g.bitmap_ut 0 1;
      next_ut_id = g.next_ut_id + 1;
    } in
    record (enqueued j a noted) { n_uthread = (g.n_uthread + 1) % 2 ^ 32 }

module _ ⦃e : Env⦄ where
  -- where the block can be allocated
  pub create_main_enter-made :
      (i j : ℕ) (s : Rt) (a : ℕ)
      → (s.global.all_sched i).p ≡ some j
      → e.reply s.trace Call.calloc ≡ pos a
      → is_null (pos a) ≡ false
      → (t : Rt) × (create_main_enter i s ≡ ok (some a) t)
        × ((b : Ptr) → t.heap b ≡ (if b == a then live (main_uthread (some j)) else s.heap b))
        × (t.tls ≡ s.tls)
        × (t.global ≡ main_counted j a s.global)
  unfolding create_main_enter
  create_main_enter-made i j s a bound answer there =
      let h1 : Ptr → Cell = update s.heap a (live zero_uthread) in
      let s1 : Rt = record s { heap = h1; trace = Call.calloc ∷ s.trace } in
      let home = (s.global.all_sched i).p in
      let fill = λ (u : Uthread). record u {
        is_main = 1;
        id = 0;
        status = bit St.ready;
        ut_joined = none;
        p = home;
        fd_wait = minus_one;
        is_wating_yield_signal = 1;
      } in
      let s2 : Rt = record s1 {
        heap = update h1 a (live (main_uthread home));
        global = record (s.global) {
          bitmap_ut = update s.global.bitmap_ut 0 1;
          next_ut_id = s.global.next_ut_id + 1;
        };
      } in
      (
        record s2 { global = main_counted j a s.global },
        rw (
          calloc_uthread_lem a s answer there,
          store_live a s1 fill (update_self s.heap a (live zero_uthread)),
          deref-some home s2 bound,
        ),
        λ b. elim (Bool-cases (b == a)) [ inl hit ↦ rw (hit, bound) | inr miss ↦ rw miss ],
        refl,
        refl,
      )

  pub create_main_enter-Represents :
      (i j : ℕ) (place : Ptr → Place) (s t : Rt) (a : ℕ) (out : Option Ptr)
      → Represents i j place s
      → e.reply s.trace Call.calloc ≡ pos a
      → is_null (pos a) ≡ false
      → is_live (s.heap a) ≡ false
      → create_main_enter i s ≡ ok out t
      → Represents i j (update place a Place.queued) t
  create_main_enter-Represents i j place s t a out before answer there dead run =
      let (n, done, heap, own, global) = create_main_enter-made i j s a before.bound answer there in
      let end : n ≡ t = cc in
      let (_, _, going, awake) = new_status in
      rw (← end) (
        made-Represents i j place s n a (main_uthread (some j)) before dead refl going awake refl
          own heap (ap (λ (g : GlobalData). g.all_sched) global)
          (ap (λ (g : GlobalData). g.all_p j) global ∙ rw (==_refl j)))

  pub main_number :
      (i j : ℕ) (s t : Rt) (a : ℕ) (out : Option Ptr)
      → (s.global.all_sched i).p ≡ some j
      → e.reply s.trace Call.calloc ≡ pos a
      → is_null (pos a) ≡ false
      → create_main_enter i s ≡ ok out t
      → t.global.n_uthread ≡ one_more s.global.n_uthread
  main_number i j s t a out bound answer there run =
      let (n, done, _, _, global) = create_main_enter-made i j s a bound answer there in
      let end : n ≡ t = cc in
      ap (λ (r : Rt). r.global.n_uthread) (sym end) ∙ ap (λ (g : GlobalData). g.n_uthread) global
