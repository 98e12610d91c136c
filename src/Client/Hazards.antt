-- ===== src/Client/Hazards.antt =====
-- The effects on the hazard pointers: one more that is in use, and one that is given back.
use atom_box.Prelude.{
  ℕ, suc, ◌≤◌, ◌≡◌, refl, ◌⊎◌, true, false, Option, none, some, ◌∷◌, ◌==◌, length, arith,
  Bool-cases, Option-cases, ==→eq, inl, inr, subst, sym, ap,
}
use atom_box.Machine.{Ptr, null, cell, is_free}
use atom_box.LockFreeList.Push.{pushed, Seg-pushed}
use atom_box.LockFreeList.Chain.{Cells, Seg, node}
use atom_box.LockFreeList.Entry.{
  entry, entry-cell, replaced, Seg-replaced, entry-replaced, entry-replaced_self, length-replaced,
}
use atom_box.HazardPointerList
use atom_box.HazardPointerList.{HazardPointerList}
use atom_box.HazardPointerList.Idle.{IsIdle, IsIdle-write}
use atom_box.World.{World, update, update_self}
use atom_box.Domain.{hazard_ptrs}
use atom_box.Domain.Hazard.{without}
use atom_box.AtomBox.Loading.{with_hazard}
use atom_box.Client.{Client, Reader, box_read, hazard_held}
use atom_box.Client.Sound.{IsSound, is_live, active}

module _ {V : Type 0} (d : ℕ) (s : World V) (l : HazardPointerList) where
  -- The memory with other hazard pointers in the domain.
  abbrev pub hazards_put : World V
  hazards_put = (hazard_ptrs d).put l s

  hazards_put-domain : hazards_put.domains d ≡ record (s.domains d) { hazard_ptrs = l }
  hazards_put-domain = update_self s.domains d _

module _ {V : Type 0} (d n : ℕ) (c : Client V) (sound : IsSound d n c) (l : HazardPointerList)
    (hs : Cells HazardPointerList.Node) (loads : Ptr → Option Ptr)
    (reading : Ptr → Option Reader) where
  -- A change of the hazard pointers alone.
  pub hazards_put-IsSound :
      Seg l.nodes null l.head hs
      → IsIdle l.nodes
      → ((a p : Ptr)
          → loads a ≡ some p
          → (entry hs a ≡ some (active p)) × (is_live c.world.values p ≡ true))
      → ((a : Ptr) (n : HazardPointerList.Node)
          → entry hs a ≡ some n
          → (n.ptr == null) ≡ false
          → (loads a ≡ some n.ptr)
            ⊎ ((r : Reader) × (reading a ≡ some r) × (hazard_held r ≡ n.ptr)))
      → ((a : Ptr) (r : Reader)
          → reading a ≡ some r
          → (entry hs a ≡ some (active (hazard_held r)))
            × (c.boxes (box_read r) ≡ true)
            × (loads a ≡ none))
      → length hs ≤ suc n
      → IsSound d
          (suc n)
          (record c { world = hazards_put d c.world l; loads = loads; reading = reading })
  hazards_put-IsSound chain idle loaded accounted under_way few = record {
    items = sound.items;
    hazards = hs;
    domain = record {
      items = rw (hazards_put-domain d c.world l) sound.domain.items;
      hazards = rw (hazards_put-domain d c.world l) chain;
      promised = sound.domain.promised;
    };
    idle = rw (hazards_put-domain d c.world l) idle;
    near = sound.near;
    boxed = sound.boxed;
    apart = sound.apart;
    stored = sound.stored;
    loaded = loaded;
    accounted = accounted;
    under_way = under_way;
    few_items = omega (arith, sound.few_items);
    few_hazards = few;
  }

-- A new hazard pointer holds the address of a live value.
abbrev pub guarding : {V : Type 0} → Client V → ℕ → Ptr → Ptr → Client V
guarding c d a p = record c {
  world = with_hazard d c.world a (active p);
  loads = update c.loads a (some p);
}

module _ {V : Type 0} (d n : ℕ) (c : Client V) (sound : IsSound d n c) (a : Ptr)
    (free : is_free (c.world.domains d).hazard_ptrs.nodes a ≡ true) where
  -- A free address is no hazard pointer's.
  pub free-entry : entry sound.hazards a ≡ none
  free-entry = elim (Option-cases (entry sound.hazards a)) [
    | inl out ↦ out
    | inr (m, e) ↦ absurd (
        let (q, own) =
          entry-cell (c.world.domains d).hazard_ptrs.nodes null _ a m sound.hazards
            sound.domain.hazards e in
        ground (arith, own))
  ]

  pub free-loads : c.loads a ≡ none
  free-loads = elim (Option-cases (c.loads a)) [
    | inl out ↦ out
    | inr (p, i) ↦ absurd (cc ((sound.loaded a p i).0, free-entry))
  ]

  pub free-reading : c.reading a ≡ none
  free-reading = elim (Option-cases (c.reading a)) [
    | inl out ↦ out
    | inr (r, i) ↦ absurd (cc ((sound.under_way a r i).0, free-entry))
  ]

module _ {V : Type 0} (d n : ℕ) (c : Client V) (sound : IsSound d n c) (a p : Ptr) where
  pub guarding-IsSound :
      is_free (c.world.domains d).hazard_ptrs.nodes a ≡ true
      → is_live c.world.values p ≡ true
      → IsSound d (suc n) (guarding c d a p)
  guarding-IsSound free alive =
      let l : HazardPointerList = (c.world.domains d).hazard_ptrs in
      hazards_put-IsSound d n c sound (pushed l a (active p)) ((a, active p) ∷ sound.hazards)
        (update c.loads a (some p)) c.reading
        (Seg-pushed l a (active p) sound.hazards free sound.domain.hazards)
        (IsIdle-write l.nodes a (node (active p) l.head) sound.idle (λ off. cc))
        (λ b q i. ground (arith, sound.loaded b q))
        (λ b m e there. ground (arith, sound.accounted b m, free-reading d n c sound a free))
        (λ b r i. ground (arith, sound.under_way b r, free-reading d n c sound a free))
        (omega (arith, sound.few_hazards))

  -- The hazard pointer of a load guard is given back.
  module _ (held : c.loads a ≡ some p) where
    pub guard_node :
        (q : Ptr) × (cell (c.world.domains d).hazard_ptrs.nodes a ≡ some (node (active p) q))
    guard_node =
        entry-cell (c.world.domains d).hazard_ptrs.nodes null _ a (active p) sound.hazards
          sound.domain.hazards (sound.loaded a p held).0

    abbrev pub released : Client V
    released = record c {
      world =
          (hazard_ptrs d).put (without d a c.world (node (active p) guard_node.0) guard_node.1)
            c.world;
      loads = update c.loads a none;
    }

    cleared :
        (b : Ptr) (m : HazardPointerList.Node)
        → entry (replaced sound.hazards a (record { ptr = null; active = false })) b ≡ some m
        → (m.ptr == null) ≡ false
        → (a == b) ≡ true
        → ⊥
    cleared b m e there here =
        let same : m ≡ record { ptr = null; active = false } =
          entry-replaced_self sound.hazards a m _ (
            subst
              (λ (x : Ptr).
                entry (replaced sound.hazards a (record { ptr = null; active = false })) x ≡ some m)
              (sym (==→eq a b here)) e) in
        ground (arith, ap (λ (x : HazardPointerList.Node). x.ptr) same)

    pub released-IsSound : IsSound d (suc n) released
    released-IsSound =
        let l : HazardPointerList = (c.world.domains d).hazard_ptrs in
        let back : HazardPointerList.Node = record { ptr = null; active = false } in
        let (q, own) = guard_node in
        hazards_put-IsSound d n c sound
          (without d a c.world (node (active p) guard_node.0) guard_node.1)
          (replaced sound.hazards a back) (update c.loads a none) c.reading
          (Seg-replaced l.nodes null l.head a q (active p) back sound.hazards own
            sound.domain.hazards)
          (IsIdle-write l.nodes a (node back q) sound.idle (λ off. refl))
          (λ b r i. ground (arith, sound.loaded b r, entry-replaced sound.hazards a b back))
          (λ b m e there. elim (Bool-cases (a == b)) [
            | inl here ↦ absurd (cleared b m e there here)
            | inr other ↦ ground (arith, sound.accounted b m, entry-replaced sound.hazards a b back)
          ])
          (λ b r i.
            ground (arith, sound.under_way b r, entry-replaced sound.hazards a b back, held))
          (omega (arith, sound.few_hazards, length-replaced sound.hazards a back))
