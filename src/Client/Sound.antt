-- ===== src/Client/Sound.antt =====
-- What holds of a client between its calls: every value it owns is live and has one owner, each
-- hazard pointer of a load guard is active, its own, and holds the guard's address, and the domain's
-- two lists are well formed. Load guards without a hazard pointer have no part in it.
use atom_box.Prelude.{
  ℕ, ◌<◌, ◌≤◌, ◌≡◌, refl, ◌⊎◌, Bool, true, false, Option, none, some, [], ◌∷◌, ◌==◌, length, arith,
  not, ◌&&◌, Bool-cases, inl, inr, eq→==,
}
use atom_box.Machine.{Ptr, null, Heap, cell}
use atom_box.LockFreeList
use atom_box.LockFreeList.Chain.{Cells, Seg, has}
use atom_box.LockFreeList.Entry.{entry}
use atom_box.HazardPointerList
use atom_box.HazardPointerList.Idle.{IsIdle}
use atom_box.World.{World, Boxed, live, dropped, Retire}
use atom_box.Domain.{contains}
use atom_box.Domain.Guarded.{held}
use atom_box.Domain.Safety.{mentions, IsDomain}
use atom_box.Client.{Client, Reader, box_read, hazard_held}

module _ {V : Type 0} where
  abbrev pub is_live : Heap (Boxed V) → Ptr → Bool
  is_live vs p = elim (cell vs p) [ some (live _) ↦ true | _ ↦ false ]

  -- A value that may be retired: it is live and has not been retired.
  abbrev pub IsOwned : Heap (Boxed V) → Cells Retire → Ptr → Type 0
  IsOwned vs xs p = (is_live vs p ≡ true) × (mentions xs p ≡ false)

  pub is_live-live :
      (vs : Heap (Boxed V)) (p : Ptr) → is_live vs p ≡ true → (v : V) × (cell vs p ≡ some (live v))
  is_live-live vs p h = go (cell vs p) h refl
    where
      go :
          (o : Option (Boxed V))
          → elim o [ some (live _) ↦ true | _ ↦ false ] ≡ true
          → cell vs p ≡ o
          → (v : V) × (cell vs p ≡ some (live v))
      go none h e = cc
      go (some dropped) h e = cc
      go (some (live v)) h e = (v, e)

abbrev pub active : Ptr → HazardPointerList.Node
active p = record { ptr = p; active = true }

pub record IsSound {V : Type 0} (d n : ℕ) (c : Client V) : Type 0 where
  pub items : Cells Retire
  pub hazards : Cells HazardPointerList.Node
  pub domain : IsDomain d items hazards c.world
  pub idle : IsIdle (c.world.domains d).hazard_ptrs.nodes
  pub near : (b : ℕ) → c.boxes b ≡ true → (c.world.boxes b).domain ≡ d
  pub boxed :
      (b : ℕ)
      → c.boxes b ≡ true
      → IsOwned c.world.values items (c.world.boxes b).ptr × (c.stores (c.world.boxes b).ptr ≡ 0)
  pub apart :
      (b b' : ℕ)
      → c.boxes b ≡ true
      → c.boxes b' ≡ true
      → (c.world.boxes b).ptr ≡ (c.world.boxes b').ptr
      → b ≡ b'
  pub stored : (p : Ptr) → 0 < c.stores p → IsOwned c.world.values items p × (c.stores p ≡ 1)
  pub loaded :
      (a p : Ptr)
      → c.loads a ≡ some p
      → (entry hazards a ≡ some (active p)) × (is_live c.world.values p ≡ true)
  pub accounted :
      (a : Ptr) (n : HazardPointerList.Node)
      → entry hazards a ≡ some n
      → (n.ptr == null) ≡ false
      → (c.loads a ≡ some n.ptr) ⊎ ((r : Reader) × (c.reading a ≡ some r) × (hazard_held r ≡ n.ptr))
  pub under_way :
      (a : Ptr) (r : Reader)
      → c.reading a ≡ some r
      → (entry hazards a ≡ some (active (hazard_held r)))
        × (c.boxes (box_read r) ≡ true)
        × (c.loads a ≡ none)
  pub few_items : length items ≤ n
  pub few_hazards : length hazards ≤ n

-- The values that load guards with a hazard pointer refer to are the same.
abbrev pub Spared : {V : Type 0} → Client V → World V → Type 0
Spared c s' = (a p : Ptr) → c.loads a ≡ some p → s'.values p ≡ c.world.values p

pub entry-held :
    (hs : Cells HazardPointerList.Node) (a : Ptr) (n : HazardPointerList.Node)
    → entry hs a ≡ some n
    → (n.ptr == null) ≡ false
    → contains (held hs) n.ptr ≡ true
entry-held [] a n e there = cc
entry-held ((b, m) ∷ hs) a n e there = ground (arith, entry-held hs a n)

pub held-entry :
    (h : Heap (LockFreeList.Node HazardPointerList.Node)) (start p : Ptr)
    (hs : Cells HazardPointerList.Node)
    → Seg h null start hs
    → contains (held hs) p ≡ true
    → (a : Ptr) × (n : HazardPointerList.Node) × (has a hs ≡ true)
      × (entry hs a ≡ some n)
      × ((n.ptr == null) ≡ false)
      × (n.ptr ≡ p)
held-entry h start p [] seg i = cc
held-entry h start p ((b, n) ∷ hs) (q, e, c, o, seg) i =
    elim (Bool-cases (not (n.ptr == null) && (n.ptr == p))) [
      | inl here ↦ (
        b,
        n,
        ground (arith, eq→== b b refl),
        ground (arith, eq→== b b refl),
        ground arith,
        ground arith,
      )
      | inr other ↦
          let (a, m, inside, found, there, same) = held-entry h q p hs seg (ground arith) in
          (a, m, ground arith, ground arith, there, same)
    ]
