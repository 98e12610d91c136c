-- ===== src/Client/Reading.antt =====
-- A load guard with a hazard pointer, from the call that makes it to the call that drops it.
use atom_box.Prelude.{ℕ, suc, ◌<◌, ◌≡◌, refl, some, [], ◌∙◌, arith, subst}
use atom_box.Prelude.Int.{word}
use atom_box.Machine.{Ptr, returns, cell}
use atom_box.World.{live}
use atom_box.AtomBox.{deref}
use atom_box.AtomBox.Replace.{deref-live}
use atom_box.Client.{Client, Request, Ready, perform, Reach, call}
use atom_box.Client.Sound.{is_live-live}
use atom_box.Client.Safety.{Reach-IsSound, returned-IsSound}

module _ {V : Type 0} (d : ℕ) (a p : Ptr) where
  -- Calls after the `n`th, while the load guard with the hazard pointer `a` has the address `p`.
  pub data Holds (n : ℕ) (c : Client V) : ℕ → Client V → Type 0 where
    begin : c.loads a ≡ some p → Holds n c n c
    next :
        {m : ℕ} {c' c'' : Client V} (request : Request V) (rounds time : ℕ)
        → Holds n c m c'
        → Ready d request c'
        → m < rounds
        → time < word
        → perform d (suc rounds) (some time) request c' ≡ returns c''
        → c''.loads a ≡ some p
        → Holds n c (suc m) c''

  Holds-Reach :
      (n : ℕ) (c : Client V) (h : Reach d n c) (m : ℕ) (c' : Client V)
      → Holds n c m c'
      → Reach d m c' × (c'.loads a ≡ some p) × (c'.world.values p ≡ c.world.values p)
  Holds-Reach n c h m c' (begin i) = (h, i, refl)
  Holds-Reach n c h m c' (next {m = k} {c' = c₁} request rounds time w ready enough small run i) =
      let (h₁, i₁, same) = Holds-Reach n c h k c₁ w in
      let (_, spared) =
        returned-IsSound d k rounds time c₁ c' request enough small ready run
          (Reach-IsSound d k c₁ h₁) in
      (call request rounds time h₁ ready enough small run, i, spared a p i₁ ∙ same)

  -- Whatever calls a program makes on one domain while it holds a load guard that has a hazard pointer,
  -- such as `load` returns, stores in the same box, drops of the box, reclamations and steps of other
  -- loads included: a read through the guard keeps giving the value that it gave at first. The guard
  -- of a failed exchange, which has no hazard pointer, is not meant.
  pub deref-Holds :
      (n m : ℕ) (c c' : Client V) (v : V)
      → Reach d n c
      → Holds n c m c'
      → deref p [] c.world ≡ returns (v, [], c.world)
      → deref p [] c'.world ≡ returns (v, [], c'.world)
  deref-Holds n m c c' v h w read =
      let (h', i, same) = Holds-Reach n c h m c' w in
      let (u, there) = is_live-live c'.world.values p ((Reach-IsSound d m c' h').loaded a p i).1 in
      let before : cell c.world.values p ≡ some (live u) = ground (arith, there, same) in
      let known = deref-live c.world p u before in
      let same_value : u ≡ v = cc (known, read) in
      subst (λ (x : V). deref p [] c'.world ≡ returns (x, [], c'.world)) same_value
        (deref-live c'.world p u there)
