-- ===== src/Client/Interrupted.antt =====
-- `load` between whose steps other threads make calls.
use atom_box.Prelude.{ℕ, suc, ◌≡◌, refl, some, [], ◌∷◌, arith, ap, inl}
use atom_box.Machine.{Ptr, returns, Env, bind-returns, pure, load as load_ptr}
use atom_box.Client.Safety.{Reach-IsSound, deref-returns}
use atom_box.World.{World, at_box}
use atom_box.Domain.{acquire_haz_ptr}
use atom_box.AtomBox
use atom_box.AtomBox.{load_loop, deref}
use atom_box.Client.{Client, to_protect, to_check, to_reset, load_start, load_guard, Reach}
use atom_box.Client.Turns.{Calls-Reach, Turn-Reach, Loop, check_succeeds, check_fails}
use atom_box.Client.Stepping.{protect-tick, reset-tick, check-same}

module _ {V : Type 0} (d a b : ℕ) where
  load_loop-Loop :
      (n : ℕ) (c : Client V) (p : Ptr) (k : ℕ) (e : Env (World V)) (m : ℕ) (c' : Client V)
      → Loop d a b n c p k e m c'
      → Reach d n c
      → (q : Ptr) × (load_loop b d k a p e c.world ≡ returns (q, [], c'.world))
        × (c'.loads a ≡ some q)
        × Reach d m c'
  unfolding load_loop
  load_loop-Loop n c p _ _ _ _ (check_succeeds {k = k} x y t u met met' same) h =
      let before = Calls-Reach d n c h t.count t.before t.others in
      let after = Turn-Reach d a n c (to_protect b p) t h in
      let before' = Calls-Reach d (suc t.count) t.after after u.count u.before u.others in
      let set =
        protect-tick d t.count a b (suc t.rounds) (some t.time) t.before t.after p x (y ∷ [])
          c.world met (Reach-IsSound d t.count t.before before) t.ready t.run in
      let (unchanged, kept) =
        check-same d a b (suc u.rounds) (some u.time) u.before u.after p u.run in
      (
        (u.before.world.boxes b).ptr,
        rw set (
            rw met' (
              rw same
                (ap (λ (w : World V). returns ((u.before.world.boxes b).ptr, [], w)) unchanged))),
        kept same,
        Turn-Reach d a (suc t.count) t.after (to_check b p) u after,
      )
  load_loop-Loop n c p _ _ m c'
        (check_fails {q = q} {k = k} {e = e} x y z t u v met met' met'' found other rest) h =
      let before = Calls-Reach d n c h t.count t.before t.others in
      let after = Turn-Reach d a n c (to_protect b p) t h in
      let before' = Calls-Reach d (suc t.count) t.after after u.count u.before u.others in
      let after' = Turn-Reach d a (suc t.count) t.after (to_check b p) u after in
      let before'' = Calls-Reach d (suc u.count) u.after after' v.count v.before v.others in
      let set =
        protect-tick d t.count a b (suc t.rounds) (some t.time) t.before t.after p x (y ∷ z ∷ e)
          c.world met (Reach-IsSound d t.count t.before before) t.ready t.run in
      let (unchanged, _) = check-same d a b (suc u.rounds) (some u.time) u.before u.after p u.run in
      let cleared =
        reset-tick d v.count a b (suc v.rounds) (some v.time) v.before v.after p z e u.after.world
          met'' (Reach-IsSound d v.count v.before before'') q v.ready v.run in
      let (r, run, kept, ends) =
        load_loop-Loop (suc v.count) v.after q k e m c' rest
          (Turn-Reach d a (suc u.count) u.after (to_reset b p q) v after') in
      (r, rw set (rw met' (rw found (rw other (rw unchanged (rw cleared run))))), kept, ends)

  -- The rest of `load`, after its start.
  pub load-loop :
      (haz p p' q fresh : Ptr) (k : ℕ) (e₀ e₁ e₂ e e' : Env (World V)) (s s₁ s₂ w w' : World V)
      → (s.boxes b).domain ≡ d
      → acquire_haz_ptr (s.boxes b).domain k fresh e₀ s ≡ returns (haz, e₁, s₁)
      → load_ptr (at_box b) e₁ s₁ ≡ returns (p', e₂, s₂)
      → pure {S = World V} {A = Ptr × Ptr} (haz, p') e₂ s₂ ≡ returns ((a, p), e, w)
      → load_loop b d k a p e w ≡ returns (q, e', w')
      → AtomBox.load b k fresh e₀ s ≡ returns (load_guard d (some a) q, e', w')
  unfolding AtomBox.load
  load-loop haz p p' q fresh k e₀ e₁ e₂ e e' s s₁ s₂ w w' near acquired looked last run =
      let e_a : haz ≡ a = ground arith in
      let e_p : p' ≡ p = ground arith in
      let e_e : e₂ ≡ e = ground arith in
      let e_w : s₂ ≡ w = ground arith in
      rw acquired (rw looked (rw (near, e_a, e_p, e_e, e_w) (rw run refl)))

  -- `load` of a box of the domain by a thread with the hazard pointer `a` that the other threads
  -- interrupt before each step of its loop: by any calls and steps of other loads, stores in the
  -- same box and reclamations included, which a program makes that has come by `n` calls to where
  -- the loop starts. If the loop may go round once more than the box has another address at a check,
  -- `load` returns. Its guard is one of the program, which has come to the end by calls and steps of
  -- the same kind, and a read through the guard gives a value.
  pub load-Loop :
      (n : ℕ) (c : Client V) (p fresh : Ptr) (k : ℕ) (e₀ e : Env (World V)) (m : ℕ) (s : World V)
      (c' : Client V)
      → Reach d n c
      → (s.boxes b).domain ≡ d
      → load_start b k fresh e₀ s ≡ returns ((a, p), e, c.world)
      → Loop d a b n c p k e m c'
      → (q : Ptr) × (AtomBox.load b k fresh e₀ s ≡ returns (load_guard d (some a) q, [], c'.world))
        × (c'.loads a ≡ some q)
        × Reach d m c'
        × (v : V) × (deref q [] c'.world ≡ returns (v, [], c'.world))
  load-Loop n c p fresh k e₀ e m s c' h near started loop =
      let (q, run, held, ends) = load_loop-Loop n c p k e m c' loop h in
      let (v, read) = deref-returns d m c' q ends (inl (a, held)) in
      let (haz, e₁, s₁, acquired, rest) =
        bind-returns (acquire_haz_ptr (s.boxes b).domain k fresh e₀ s) _ started in
      let (p', e₂, s₂, looked, last) = bind-returns (load_ptr (at_box b) e₁ s₁) _ rest in
      (
        q,
        load-loop haz p p' q fresh k e₀ e₁ e₂ e [] s s₁ s₂ c.world c'.world near acquired looked
            last run,
        held,
        ends,
        v,
        read,
      )
