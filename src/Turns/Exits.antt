-- ===== src/Turns/Exits.antt =====
-- The running uthread ends.
use mathlib.Core.Path.{subst, fun_ext}
use uthread.Base.{
  ℕ, ◌≡◌, refl, ap, ◌∙◌, sym, Option, none, some, true, false, ◌∷◌, ◌==◌, ==_refl, if◌then◌else◌,
  update, arith, Bool-cases, Option-cases, inl, inr, ◌⊎◌,
}
use uthread.Status.{set_bit}
use uthread.Status.St
use uthread.Status.Laws.{has-set_bit}
use uthread.Types.{Ptr, Uthread, Sched}
use uthread.Machine.{M, Rt, ok, Cell, live, freed, Env, update_self, ◌>>◌}
use uthread.Lifecycle.{exit_enter}
use uthread.Resume.{resume_leave, wake_joiner}
use uthread.Resume.Leave.{Mutex, idle_sched, forgotten, released, freeing, wake_no_joiner}
use uthread.Turns.{one_less, Place, running, asleep, Fits, Represents}
use uthread.Turns.Facts.{Represents-running, joined_of}
use uthread.Turns.Trees.{RbLaws}
use uthread.Turns.Yield.{turn_yield, yield_enter_lem}
use uthread.Turns.Dropped.{roused}
use uthread.Turns.Gone.{gone-Represents, unlinked, unlinked-Represents, woken-Represents}
use uthread.Turns.Ending.{
  released_number, wake_some, exit_enter_lem, ended_lem, released_ps, released_scheds,
}

module _ ⦃e : Env⦄ where
  -- `a` runs `uthread_exit`
  unfoldable pub turn_exit : ℕ → Option ℕ → M (Unit {0})
  turn_exit i retval = do exit_enter retval; turn_yield i

-- the block of a uthread that has ended and yielded
abbrev pub ended : Uthread → Uthread
ended u = record u { status = set_bit u.status St.exited; is_wating_yield_signal = 0 }

module _ ⦃e : Env⦄ (laws : RbLaws e) (mutex : Mutex e) (i j : ℕ) (place : Ptr → Place) (s : Rt)
    (a : Ptr) (u : Uthread) (before : Represents i j place s)
    (cur : (s.global.all_sched i).cur_uthread ≡ some a) (alive : s.heap a ≡ live u) where
  -- the state in which the scheduler finds the uthread
  abbrev found : (ℕ → ℕ) → Rt
  found mem = record s {
    heap =
        update (update s.heap a (live (record u { status = set_bit u.status St.exited }))) a
          (live (ended u));
    memory = mem;
  }

  abbrev idle : (ℕ → ℕ) → Rt
  idle mem = record (found mem) { global = idle_sched i s.global }

  turn_exit_lem :
      (retval : Option ℕ) → (mem : ℕ → ℕ) × (turn_exit i retval s ≡ resume_leave i a (found mem))
  unfolding turn_exit turn_yield
  turn_exit_lem retval =
      let (mem, entered) = exit_enter_lem i a retval s u before.own cur alive in
      let u1 : Uthread = record u { status = set_bit u.status St.exited } in
      let s1 : Rt = record s { heap = update s.heap a (live u1); memory = mem } in
      (mem, rw (entered, yield_enter_lem i a s1 u1 before.own cur (update_self s.heap a (live u1))))

  -- the end of a uthread, after the one that joined it was woken
  buried :
      (mem : ℕ → ℕ) (n t : Rt)
      → wake_joiner u.ut_joined (idle mem) ≡ ok tt n
      → n.heap a ≡ live (ended u)
      → resume_leave i a (found mem) ≡ ok tt t
      → t ≡ record n {
        heap = update n.heap a (freed (ended u));
        global = released (ended u) (forgotten n.global);
        trace = freeing (ended u) n.trace;
        freed_uses = a ∷ n.freed_uses;
      }
  buried mem n t woken still run =
      let done =
        ended_lem mutex i a (found mem) n (ended u)
          (update_self (update s.heap a (live (record u { status = set_bit u.status St.exited }))) a
            (live (ended u)))
          (has-set_bit u.status 2 2) woken still in
      cc

  -- nobody joined it
  lonely_exit :
      (retval : Option ℕ) (t : Rt)
      → u.ut_joined ≡ none
      → turn_exit i retval s ≡ ok tt t
      → Represents i j (update place a Place.gone) t
        × (t.global.n_uthread ≡ one_less s.global.n_uthread)
  lonely_exit retval t alone run =
      let (mem, opened) = turn_exit_lem retval in
      let n : Rt = idle mem in
      let here' : n.heap a ≡ live (ended u) =
        update_self (update s.heap a (live (record u { status = set_bit u.status St.exited }))) a
          (live (ended u)) in
      let end =
        buried mem n t (wake_no_joiner mutex u.ut_joined n alone) here' (sym opened ∙ run) in
      rw end (
        (gone-Represents i j place s
            (record n {
              heap = update n.heap a (freed (ended u));
              global = released (ended u) (forgotten n.global);
              trace = freeing (ended u) n.trace;
              freed_uses = a ∷ n.freed_uses;
            })
            a (ended u) before cur refl
            (λ b. elim (Bool-cases (b == a)) [ inl hit ↦ rw hit | inr miss ↦ rw miss ])
            (released_ps (ended u) (forgotten n.global))
            (ap (λ (f : ℕ → Sched). f i) (released_scheds (ended u) (forgotten n.global))
              ∙ rw (==_refl i))),
        released_number (ended u) (forgotten n.global),
      )

  -- `x`, which sleeps, joined it: `x` is made ready
  waking_exit :
      (retval : Option ℕ) (t : Rt) (x : Ptr)
      → u.ut_joined ≡ some x
      → turn_exit i retval s ≡ ok tt t
      → (place x ≡ asleep)
        × Represents i j (update (update place x Place.queued) a Place.gone) t
        × (t.global.n_uthread ≡ one_less s.global.n_uthread)
  waking_exit retval t x link run =
      let (runs, _) = Represents-running i j place s a before cur in
      let (lies, no_wait) = before.joiners a x u alive link in
      let (w, block, home, going, sleeps) =
        subst (λ (p : Place). Fits j p (s.heap x)) lies (before.cells x) in
      let apart : (x == a) ≡ false = elim (Bool-cases (x == a)) [
        | inl hit ↦
            let is : x ≡ a = ground arith in
            let both : asleep ≡ running = sym lies ∙ ap place is ∙ runs in cc
        | inr miss ↦ miss
      ] in
      let apart' : (a == x) ≡ false = ground arith in
      let (mem, opened) = turn_exit_lem retval in
      let m : Rt = idle mem in
      let (n, woken, heap, own, scheds, ps, number) =
        wake_some j x m w (rw apart block) sleeps home in
      let still : n.heap a ≡ live (ended u) = heap a ∙ rw apart' (rw (==_refl a)) in
      let end = buried mem n t (ap (λ o. wake_joiner o m) link ∙ woken) still (sym opened ∙ run) in
      let r : Rt = unlinked a u s in
      let same : update place a Place.running ≡ place = fun_ext (λ b. elim (Bool-cases (b == a)) [
        | inl hit ↦ let is : b ≡ a = ground arith in rw hit (sym (ap place is ∙ runs))
        | inr miss ↦ rw miss
      ]) in
      let bare : Represents i j place r =
        subst (λ p. Represents i j p r) same
          (unlinked-Represents i j place s a u before runs alive) in
      let q : Rt = record s {
        heap = λ b. if b == x then live (roused w) else r.heap b;
        global = record (n.global) { all_sched = s.global.all_sched };
      } in
      let sole : (b : Ptr) (v : Uthread) → r.heap b ≡ live v → v.ut_joined ≡ some x → false ≡ true =
        λ b v stood link'. elim (Bool-cases (b == a)) [
          | inl hit ↦
              let none_left : none ≡ v.ut_joined =
                ap (λ (c : Cell). joined_of c) (rw hit at stood) in
              cc
          | inr miss ↦
              let is : b ≡ a = before.once b a x v u (rw miss at stood) alive link' link in
              ground arith
        ] in
      let roused' : Represents i j (update place x Place.queued) q =
        woken-Represents laws i j place r q x w bare lies (rw apart block) no_wait sole refl
          (λ b. refl) refl ps in
      (
        lies,
        rw end (
            gone-Represents i j (update place x Place.queued) q
              (record n {
                heap = update n.heap a (freed (ended u));
                global = released (ended u) (forgotten n.global);
                trace = freeing (ended u) n.trace;
                freed_uses = a ∷ n.freed_uses;
              })
              a (ended u) roused' cur own
              (λ b. elim (Bool-cases (b == a)) [
                | inl hit ↦ rw hit
                | inr miss ↦ rw miss (heap b ∙ rw miss)
              ])
              (released_ps (ended u) (forgotten n.global))
              (ap (λ (f : ℕ → Sched). f i) (released_scheds (ended u) (forgotten n.global) ∙ scheds)
                ∙ rw (==_refl i))),
        rw end (released_number (ended u) (forgotten n.global) ∙ ap one_less number),
      )

  pub turn_exit-Represents :
      (retval : Option ℕ) (t : Rt)
      → turn_exit i retval s ≡ ok tt t
      → ((u.ut_joined ≡ none)
          × Represents i j (update place a Place.gone) t
          × (t.global.n_uthread ≡ one_less s.global.n_uthread))
        ⊎ ((x : Ptr) × (place x ≡ asleep)
            × Represents i j (update (update place x Place.queued) a Place.gone) t
            × (t.global.n_uthread ≡ one_less s.global.n_uthread)
            × (u.ut_joined ≡ some x))
  turn_exit-Represents retval t run = elim (Option-cases u.ut_joined) [
    | inl alone ↦ let (after, fewer) = lonely_exit retval t alone run in inl (alone, after, fewer)
    | inr (x, link) ↦
        let (lies, after, fewer) = waking_exit retval t x link run in
        inr (x, lies, after, fewer, link)
  ]
