-- ===== src/Client/Ticks.antt =====
-- The steps of a load in an environment that does what calls of the other threads do.
use atom_box.Prelude.{ℕ, suc, ◌≡◌, refl, ◌∙◌, ap, sym, true, false, some, [], ◌∷◌, ◌==◌, arith}
use atom_box.Machine.{Ptr, Tick, Env, alone, access, load as load_ptr, returns, meets, later}
use atom_box.Machine.Logic.{Keeps}
use atom_box.HazardPointerList
use atom_box.World.{World, at_box}
use atom_box.Domain.{protect, reset}
use atom_box.Client.{
  Client, Reader, to_protect, to_check, to_reset, Reach, go_on_load, perform, box_read,
}
use atom_box.Client.Safety.{Reach-IsSound, perform-returns}
use atom_box.Client.Turns.{Calls, Calls-Reach}
use atom_box.Client.Stepping.{
  protect-tick, reset-tick, protect-after, reset-after, check-after, check-same,
}

module _ {V : Type 0} (d a b : ℕ) where
  -- A tick that does what calls of the other threads do, whatever the program has come to in the
  -- middle of a load of the box `b` with the hazard pointer `a`; none of them is a step of this load.
  abbrev pub Interrupts : Tick (World V) → Type 0
  Interrupts t =
      (n : ℕ) (c : Client V) (r : Reader)
      → Reach d n c
      → c.reading a ≡ some r
      → box_read r ≡ b
      → (m : ℕ) × (c' : Client V) × Calls d n c m c'
        × (c'.reading a ≡ some r)
        × (t.others c.world ≡ c'.world)

  -- The program that the next step of the load finds.
  abbrev Met : Env (World V) → Client V → Reader → Type 0
  Met e c r =
      (m : ℕ) × (c' : Client V) × Reach d m c'
      × (c'.reading a ≡ some r)
      × (meets e c.world ≡ c'.world)
      × (e ≡ [] → c ≡ c')

  met :
      (e : Env (World V)) (n : ℕ) (c : Client V) (r : Reader)
      → Keeps Interrupts e
      → Reach d n c
      → c.reading a ≡ some r
      → box_read r ≡ b
      → Met e c r
  met [] n c r k h ready here = (n, c, h, ready, refl, λ _. refl)
  met (t ∷ e) n c r k h ready here =
      let (m, c', calls, ready', same) = k.0 n c r h ready here in
      (m, c', Calls-Reach d n c h m c' calls, ready', same, λ none_left. cc)

  module _ (n : ℕ) (c c' : Client V) (p : Ptr) (rounds time : ℕ) (s : World V)
      (h : Reach d n c) where
    protect-meets :
        (e : Env (World V))
        → meets e s ≡ c.world
        → c.reading a ≡ some (to_protect b p)
        → perform d rounds (some time) (go_on_load a (to_protect b p)) c ≡ returns c'
        → protect d a p e s ≡ returns (tt, later e, c'.world)
    unfolding protect HazardPointerList.store access
    protect-meets [] same i run =
        protect-tick d n a b rounds (some time) c c' p alone [] s same (Reach-IsSound d n c h) i run
    protect-meets (x ∷ e) same i run =
        protect-tick d n a b rounds (some time) c c' p x e s same (Reach-IsSound d n c h) i run

    reset-meets :
        (q : Ptr) (e : Env (World V))
        → meets e s ≡ c.world
        → c.reading a ≡ some (to_reset b p q)
        → perform d rounds (some time) (go_on_load a (to_reset b p q)) c ≡ returns c'
        → reset d a e s ≡ returns (tt, later e, c'.world)
    unfolding reset HazardPointerList.store access
    reset-meets q [] same i run =
        reset-tick d n a b rounds (some time) c c' p alone [] s same (Reach-IsSound d n c h) q i run
    reset-meets q (x ∷ e) same i run =
        reset-tick d n a b rounds (some time) c c' p x e s same (Reach-IsSound d n c h) q i run

  load-meets :
      (e : Env (World V)) (s w : World V)
      → meets e s ≡ w
      → load_ptr (at_box b) e s ≡ returns ((w.boxes b).ptr, later e, w)
  load-meets [] s w same = rw same refl
  load-meets (x ∷ e) s w same = rw same refl

  module _ (e : Env (World V)) (n : ℕ) (c : Client V) (p : Ptr) (keeps : Keeps Interrupts e)
      (h : Reach d n c) where
    pub step-protect :
        c.reading a ≡ some (to_protect b p)
        → (m : ℕ) × (c' : Client V) × Reach d m c'
          × (c'.reading a ≡ some (to_check b p))
          × (protect d a p e c.world ≡ returns (tt, later e, c'.world))
          × (e ≡ [] → c'.world.boxes ≡ c.world.boxes)
    step-protect ready =
        let (m, c₁, h₁, ready₁, met₁, still) = met e n c (to_protect b p) keeps h ready refl in
        let (c₂, run, h₂) =
          perform-returns d m (suc m) 0 c₁ (go_on_load a (to_protect b p)) h₁ ready₁ (omega arith)
            (omega arith) in
        let (ready₂, kept) =
          protect-after d m a b (suc (suc m)) (some 0) c₁ c₂ p (Reach-IsSound d m c₁ h₁) ready₁
            run in
        (
          suc m,
          c₂,
          h₂,
          ready₂,
          protect-meets m c₁ c₂ p (suc (suc m)) 0 c.world h₁ e met₁ ready₁ run,
          λ none_left. kept ∙ ap (λ (y : Client V). y.world.boxes) (sym (still none_left)),
        )

    pub step-reset :
        (q : Ptr)
        → c.reading a ≡ some (to_reset b p q)
        → (m : ℕ) × (c' : Client V) × Reach d m c'
          × (c'.reading a ≡ some (to_protect b q))
          × (reset d a e c.world ≡ returns (tt, later e, c'.world))
          × (e ≡ [] → c'.world.boxes ≡ c.world.boxes)
    step-reset q ready =
        let (m, c₁, h₁, ready₁, met₁, still) = met e n c (to_reset b p q) keeps h ready refl in
        let (c₂, run, h₂) =
          perform-returns d m (suc m) 0 c₁ (go_on_load a (to_reset b p q)) h₁ ready₁ (omega arith)
            (omega arith) in
        let (ready₂, kept) =
          reset-after d m a b (suc (suc m)) (some 0) c₁ c₂ p (Reach-IsSound d m c₁ h₁) q ready₁
            run in
        (
          suc m,
          c₂,
          h₂,
          ready₂,
          reset-meets m c₁ c₂ p (suc (suc m)) 0 c.world h₁ q e met₁ ready₁ run,
          λ none_left. kept ∙ ap (λ (y : Client V). y.world.boxes) (sym (still none_left)),
        )

    pub step-check :
        c.reading a ≡ some (to_check b p)
        → (q : Ptr) × (m : ℕ) × (c' : Client V) × Reach d m c'
          × (load_ptr (at_box b) e c.world ≡ returns (q, later e, c'.world))
          × ((c'.world.boxes b).ptr ≡ q)
          × (e ≡ [] → (c.world.boxes b).ptr ≡ q)
          × ((q == p) ≡ true → c'.loads a ≡ some q)
          × ((q == p) ≡ false → c'.reading a ≡ some (to_reset b p q))
    step-check ready =
        let (m, c₁, h₁, ready₁, met₁, still) = met e n c (to_check b p) keeps h ready refl in
        let (c₂, run, h₂) =
          perform-returns d m (suc m) 0 c₁ (go_on_load a (to_check b p)) h₁ ready₁ (omega arith)
            (omega arith) in
        let (same, held) = check-same d a b (suc (suc m)) (some 0) c₁ c₂ p run in
        let q : Ptr = (c₁.world.boxes b).ptr in
        (
          q,
          suc m,
          c₂,
          h₂,
          load-meets e c.world c₁.world met₁ ∙ ap (λ (w : World V). returns (q, later e, w)) same,
          sym (ap (λ (w : World V). (w.boxes b).ptr) same),
          λ none_left. ap (λ (y : Client V). (y.world.boxes b).ptr) (still none_left),
          held,
          check-after d a b (suc (suc m)) (some 0) c₁ c₂ p run,
        )
