-- ===== src/AtomBox/Validation.antt =====
-- `load` among other threads: what holds at the moment when its check succeeds.
use mathlib.Core.Path.{subst₂}
use atom_box.Prelude.{
  ℕ, zero, suc, ◌≡◌, refl, sym, ◌∙◌, [], ◌∷◌, Option, some, ◌==◌, arith, Bool-cases, Option-cases,
  ==→eq, inl, inr,
}
use atom_box.Machine.{
  Ptr, returns, Env, meets, later, atomic-meets, atomic-later, bind-returns, ◌within◌, cell, access,
  write, Heap,
}
use atom_box.LockFreeList
use atom_box.LockFreeList.{at_nodes}
use atom_box.HazardPointerList
use atom_box.HazardPointerList.{set_value}
use atom_box.World.{World}
use atom_box.Domain.{hazard_ptrs, protect, reset, acquire_haz_ptr}
use atom_box.AtomBox.{LoadGuard, load_loop, load}

module _ {V : Type 0} (b d : ℕ) (haz : Ptr) where
  abbrev node_at : World V → Option (LockFreeList.Node HazardPointerList.Node)
  node_at s = cell (s.domains d).hazard_ptrs.nodes haz

  -- The other threads leave the node of the hazard pointer alone, as they leave one that is not theirs.
  abbrev pub Keeps : Env (World V) → Type 0
  Keeps [] = Unit {0}
  Keeps (t ∷ e) = ((s : World V) → node_at (t.others s) ≡ node_at s) × Keeps e

  -- The atom box and the hazard pointer hold the same address at the same time.
  pub record Protects (p : Ptr) (s : World V) : Type 0 where
    pub boxed : (s.boxes b).ptr ≡ p
    pub node : LockFreeList.Node HazardPointerList.Node
    pub own : cell (s.domains d).hazard_ptrs.nodes haz ≡ some node
    pub guards : node.value.ptr ≡ p

  Keeps-later : (e : Env (World V)) → Keeps e → Keeps (later e)
  Keeps-later [] k = tt
  Keeps-later (t ∷ e) k = k.1

  node_at-meets : (e : Env (World V)) (s : World V) → Keeps e → node_at (meets e s) ≡ node_at s
  node_at-meets [] s k = refl
  node_at-meets (t ∷ e) s k = k.0 s

  -- A write to the hazard pointer that returns has written.
  protect-node :
      (ptr : Ptr) (env e : Env (World V)) (s s' : World V)
      → protect d haz ptr env s ≡ returns (tt, e, s')
      → (n : LockFreeList.Node HazardPointerList.Node) × (node_at s' ≡ some n)
        × (n.value.ptr ≡ ptr)
        × (e ≡ later env)
  unfolding protect HazardPointerList.store access
  protect-node ptr env e s s' h =
      let h' = rw atomic-meets at h in
      elim (Option-cases (node_at (meets env s))) [
        | inl gone ↦ absurd (ground arith)
        | inr (n, own) ↦
            let n' : LockFreeList.Node HazardPointerList.Node =
              set_value (record n.value { ptr = ptr }) n in
            let nodes : Heap (LockFreeList.Node HazardPointerList.Node) =
              write ((meets env s).domains d).hazard_ptrs.nodes haz (some n') in
            let written = rw own at h' in
            let moved : s' ≡ (at_nodes within hazard_ptrs d).put nodes (meets env s) =
              ground arith in
            let kept : (at_nodes within hazard_ptrs d).get s' ≡ nodes =
              rw moved ((at_nodes within hazard_ptrs d).get-put nodes (meets env s)) in
            (n', rw kept (ground arith), refl, ground arith)
      ]

  reset-later :
      (env e : Env (World V)) (s s' : World V)
      → reset d haz env s ≡ returns (tt, e, s')
      → e ≡ later env
  unfolding reset HazardPointerList.store access
  reset-later env e s s' h = atomic-later _ env e s h

  -- Whatever the other threads do to the atom box and to the rest of the memory between any two steps,
  -- if the loop of `load` ends with `p` then at that moment the box holds `p`, and the hazard pointer
  -- has been holding it since before the box was last read.
  pub load_loop-Protects :
      (rounds : ℕ) (original p : Ptr) (env e : Env (World V)) (s s' : World V)
      → Keeps env
      → load_loop b d rounds haz original env s ≡ returns (p, e, s')
      → Protects p s'
  unfolding load_loop
  load_loop-Protects zero original p env e s s' keeps h = absurd (ground arith)
  load_loop-Protects (suc rounds) original p env e s s' keeps h =
      let (_, e₁, s₁, set, h₁) = bind-returns (protect d haz original env s) _ h in
      let (n, own, holds, used) = protect-node original env e₁ s s₁ set in
      let keeps₁ : Keeps e₁ = rw used (Keeps-later env keeps) in
      let h₂ = rw atomic-meets at h₁ in
      elim (Bool-cases (((meets e₁ s₁).boxes b).ptr == original)) [
        | inl same ↦
            let done = rw same at h₂ in
            let ended : s' ≡ meets e₁ s₁ = ground arith in
            let found : p ≡ ((meets e₁ s₁).boxes b).ptr = ground arith in
            record {
              boxed = rw (ended, found);
              node = n;
              own = rw ended (node_at-meets e₁ s₁ keeps₁ ∙ own);
              guards = holds ∙ sym (==→eq _ _ same) ∙ sym found;
            }
        | inr other ↦
            let retried = rw other at h₂ in
            let (_, e₂, s₂, cleared, h₃) =
              bind-returns (reset d haz (later e₁) (meets e₁ s₁)) _ retried in
            let keeps₂ : Keeps e₂ =
              rw (reset-later (later e₁) e₂ (meets e₁ s₁) s₂ cleared)
                (Keeps-later (later e₁) (Keeps-later e₁ keeps₁)) in
            load_loop-Protects rounds _ p e₂ e s₂ s' keeps₂ h₃
      ]

-- The guard that `load` returns names the address that the box holds and a hazard pointer that holds the
-- same address at that moment, whatever the other threads do meanwhile, as long as they leave the
-- hazard pointer alone once this thread has acquired it.
pub load-Protects :
    {V : Type 0} (b rounds : ℕ) (node haz : Ptr) (env e₁ e : Env (World V)) (s s₁ s' : World V)
    (g : LoadGuard)
    → acquire_haz_ptr (s.boxes b).domain rounds node env s ≡ returns (haz, e₁, s₁)
    → Keeps b (s.boxes b).domain haz e₁
    → load b rounds node env s ≡ returns (g, e, s')
    → (g.haz_ptr ≡ some haz)
      × (g.domain ≡ (s.boxes b).domain)
      × Protects b (s.boxes b).domain haz g.ptr s'
unfolding load
load-Protects b rounds node haz env e₁ e s s₁ s' g acquired keeps h =
    let h₁ = rw acquired at h in
    let h₂ = rw atomic-meets at h₁ in
    let (p, e₂, s₂, looped, h₃) =
      bind-returns
        (load_loop b (s.boxes b).domain rounds haz ((meets e₁ s₁).boxes b).ptr (later e₁)
          (meets e₁ s₁))
        _ h₂ in
    let guards =
      load_loop-Protects b (s.boxes b).domain haz rounds _ p (later e₁) e₂ (meets e₁ s₁) s₂
        (Keeps-later b (s.boxes b).domain haz e₁ keeps) looped in
    let ended : s₂ ≡ s' = ground arith in
    let named : p ≡ g.ptr = ground arith in
    (ground arith, ground arith, subst₂ (Protects b (s.boxes b).domain haz) named ended guards)
