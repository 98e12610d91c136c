-- ===== src/Client/Stepping.antt =====
-- The steps of the loop of a load, as the code makes them and as the program does.
use atom_box.Prelude.{
  ℕ, ◌≡◌, refl, ◌∙◌, sym, subst, true, false, Option, some, none, [], ◌∷◌, ◌==◌, arith, ap,
  if◌then◌else◌,
}
use atom_box.Machine.{Ptr, null, returns, Tick, alone, Env, access, cell}
use atom_box.LockFreeList.Chain.{node}
use atom_box.LockFreeList.Entry.{entry-cell}
use atom_box.HazardPointerList
use atom_box.AtomBox.Loading.{protect-writes}
use atom_box.Client.Sound.{IsSound, active}
use atom_box.World.{World, update, update_self}
use atom_box.Domain.{protect, reset}
use atom_box.Client.{
  Client, Reader, to_protect, to_check, to_reset, go_on_load, perform, hazard_held,
}

-- A step of a load, in an environment whose next tick makes the memory what the step finds.
module _ {V : Type 0} (d n a b rounds : ℕ) (time : Option ℕ) (c c' : Client V) (p : Ptr)
    (x : Tick (World V)) (e : Env (World V)) (s : World V) (met : x.others s ≡ c.world)
    (sound : IsSound d n c) where
  module _ (r : Reader) (i : c.reading a ≡ some r) where
    own :
        (q : Ptr) × (cell (c.world.domains d).hazard_ptrs.nodes a
          ≡ some (node (active (hazard_held r)) q))
    own =
        entry-cell (c.world.domains d).hazard_ptrs.nodes null _ a _ sound.hazards
          sound.domain.hazards (sound.under_way a r i).0

    written-tick :
        (q : Ptr)
        → (w : World V) × (protect d a q [] c.world ≡ returns (tt, [], w))
          × (protect d a q (x ∷ e) s ≡ returns (tt, e, w))
          × (w.boxes ≡ c.world.boxes)
    unfolding protect HazardPointerList.store access
    written-tick q =
        let (link, found) = own in
        (
          _,
          protect-writes d c.world a q (node (active (hazard_held r)) link) found,
          rw
              (subst
                (λ (w : World V).
                  cell (w.domains d).hazard_ptrs.nodes a
                  ≡ some (node (active (hazard_held r)) link))
                (sym met) found)
              (rw met refl),
          refl,
        )

  pub protect-tick :
      c.reading a ≡ some (to_protect b p)
      → perform d rounds time (go_on_load a (to_protect b p)) c ≡ returns c'
      → protect d a p (x ∷ e) s ≡ returns (tt, e, c'.world)
  unfolding perform
  protect-tick i h =
      let (w, ran, ticked, _) = written-tick (to_protect b p) i p in
      let same : record c { world = w; reading = update c.reading a (some (to_check b p)) } ≡ c' =
        ground (arith, ran) in
      ticked ∙ ap (λ (y : Client V). returns (tt, e, y.world)) same

  pub reset-tick :
      (q : Ptr)
      → c.reading a ≡ some (to_reset b p q)
      → perform d rounds time (go_on_load a (to_reset b p q)) c ≡ returns c'
      → reset d a (x ∷ e) s ≡ returns (tt, e, c'.world)
  unfolding perform reset protect
  reset-tick q i h =
      let (w, ran, ticked, _) = written-tick (to_reset b p q) i null in
      let same : record c { world = w; reading = update c.reading a (some (to_protect b q)) } ≡ c' =
        ground (arith, ran) in
      ticked ∙ ap (λ (y : Client V). returns (tt, e, y.world)) same

-- Where the load is after each step, and what boxes there are.
module _ {V : Type 0} (d n a b rounds : ℕ) (time : Option ℕ) (c c' : Client V) (p : Ptr)
    (sound : IsSound d n c) where
  pub protect-after :
      c.reading a ≡ some (to_protect b p)
      → perform d rounds time (go_on_load a (to_protect b p)) c ≡ returns c'
      → (c'.reading a ≡ some (to_check b p)) × (c'.world.boxes ≡ c.world.boxes)
  unfolding perform
  protect-after i h =
      let (w, ran, _, kept) =
        written-tick d n a b rounds time c c' p alone [] c.world refl sound (to_protect b p) i p in
      let same : record c { world = w; reading = update c.reading a (some (to_check b p)) } ≡ c' =
        ground (arith, ran) in
      (
        sym (ap (λ (y : Client V). y.reading a) same) ∙ update_self c.reading a _,
        sym (ap (λ (y : Client V). y.world.boxes) same) ∙ kept,
      )

  pub reset-after :
      (q : Ptr)
      → c.reading a ≡ some (to_reset b p q)
      → perform d rounds time (go_on_load a (to_reset b p q)) c ≡ returns c'
      → (c'.reading a ≡ some (to_protect b q)) × (c'.world.boxes ≡ c.world.boxes)
  unfolding perform reset protect
  reset-after q i h =
      let (w, ran, _, kept) =
        written-tick d n a b rounds time c c' p alone [] c.world refl sound (to_reset b p q) i
          null in
      let same : record c { world = w; reading = update c.reading a (some (to_protect b q)) } ≡ c' =
        ground (arith, ran) in
      (
        sym (ap (λ (y : Client V). y.reading a) same) ∙ update_self c.reading a _,
        sym (ap (λ (y : Client V). y.world.boxes) same) ∙ kept,
      )

-- The check of a load changes no memory.
module _ {V : Type 0} (d a b rounds : ℕ) (time : Option ℕ) (c c' : Client V) (p : Ptr) where
  pub check-same :
      perform d rounds time (go_on_load a (to_check b p)) c ≡ returns c'
      → (c.world ≡ c'.world)
        × (((c.world.boxes b).ptr == p) ≡ true → c'.loads a ≡ some (c.world.boxes b).ptr)
  unfolding perform
  check-same h =
      let q : Ptr = (c.world.boxes b).ptr in
      let same : record c {
        loads = if q == p then update c.loads a (some q) else c.loads;
        reading = update c.reading a (if q == p then none else some (to_reset b p q));
      }
          ≡ c' =
        ground arith in
      (
        ap (λ (y : Client V). y.world) same,
        λ h. sym (ap (λ (y : Client V). y.loads a) same) ∙ rw h (update_self c.loads a (some q)),
      )

  pub check-after :
      perform d rounds time (go_on_load a (to_check b p)) c ≡ returns c'
      → ((c.world.boxes b).ptr == p) ≡ false
      → c'.reading a ≡ some (to_reset b p (c.world.boxes b).ptr)
  unfolding perform
  check-after h other =
      let q : Ptr = (c.world.boxes b).ptr in
      let same : record c {
        loads = if q == p then update c.loads a (some q) else c.loads;
        reading = update c.reading a (if q == p then none else some (to_reset b p q));
      }
          ≡ c' =
        ground arith in
      sym (ap (λ (y : Client V). y.reading a) same) ∙ rw other (update_self c.reading a _)
