-- ===== src/AtomBox/Replace.antt =====
-- `store` in a box of an eager domain: what becomes of the value that was there.
use atom_box.Prelude.{
  ℕ, suc, ◌<◌, ◌≡◌, refl, ap, true, false, [], ◌∷◌, some, Option, ◌==◌, if◌then◌else◌, arith,
  length, Bool-cases, inl, inr, eq→==,
}
use atom_box.Machine.{Ptr, null, fault, returns, cell, is_free}
use atom_box.LockFreeList.Chain.{Cells}
use atom_box.HazardPointerList
use atom_box.ReclaimStrategy.{eager}
use atom_box.World.{World, live, dropped, Retire, update_self}
use atom_box.Domain.{contains}
use atom_box.Domain.Guarded.{held}
use atom_box.Domain.Safety.{mentions, Promised-write, Promised-live, IsDomain, Reclaims}
use atom_box.Domain.Retiring.{item, listed, retire-eager}
use atom_box.AtomBox
use atom_box.AtomBox.{store, drop_store_guard, deref}
use atom_box.AtomBox.Exchange.{holding, allocated, swap_lem}

module _ {V : Type 0} (s : World V) (p : Ptr) where
  pub deref-live : (v : V) → cell s.values p ≡ some (live v) → deref p [] s ≡ returns (v, [], s)
  unfolding deref
  deref-live v alive = let there : (p == null) ≡ false = ground arith in ground arith

  pub deref-dropped : cell s.values p ≡ some dropped → deref p [] s ≡ fault
  unfolding deref
  deref-dropped gone = let there : (p == null) ≡ false = ground arith in ground arith

module _ {V : Type 0} (b rounds : ℕ) (now : Option ℕ) (fresh node : Ptr) (v old : V) (s : World V)
    (xs : Cells Retire) (hs : Cells HazardPointerList.Node)
    (is_eager : (s.domains (s.boxes b).domain).reclaim_strategy ≡ eager)
    (inv : IsDomain (s.boxes b).domain xs hs s)
    (alive : cell s.values (s.boxes b).ptr ≡ some (live old))
    (once : mentions xs (s.boxes b).ptr ≡ false) (free : is_free s.values fresh ≡ true)
    (free' : is_free (s.domains (s.boxes b).domain).retired.nodes node ≡ true)
    (enough : length xs < rounds) (enough' : length hs < rounds) where
  abbrev swapped : World V
  swapped = holding b (allocated b s fresh v) fresh

  swapped-IsDomain : IsDomain (s.boxes b).domain xs hs swapped
  swapped-IsDomain = record {
    items = inv.items;
    hazards = inv.hazards;
    promised = Promised-write s.values fresh (some (live v)) xs unused inv.promised;
  }
    where
      unused : mentions xs fresh ≡ false
      unused = ground (arith, Promised-live xs s.values fresh inv.promised)

  store-run :
      (n : ℕ) × (s' : World V) × (store b (suc rounds) now fresh node v [] s ≡ returns (tt, [], s'))
      × Reclaims
          (s.boxes b).domain
          ((node, item (s.boxes b).ptr) ∷ xs)
          hs
          n
          (listed (s.boxes b).domain swapped node (s.boxes b).ptr)
          s'
  unfolding store drop_store_guard
  store-run =
      let (n, s', run, swept) =
        retire-eager (s.boxes b).domain swapped node (s.boxes b).ptr rounds now free' xs hs old
          is_eager swapped-IsDomain (ground arith) once enough enough' in
      (n, s', rw (swap_lem b s fresh v free) run, swept)

  -- A thread that runs alone stores in a box whose domain is eager and whose value is live and not
  -- retired, with free addresses and rounds for all items and hazard pointers. Afterwards the box
  -- holds the new value, and the old one has been dropped unless a hazard pointer holds its
  -- address: a read through that address gives the old value if one does, and is a use of a dropped
  -- value if none does.
  pub store_lem :
      (s' : World V) × (store b (suc rounds) now fresh node v [] s ≡ returns (tt, [], s'))
      × ((s'.boxes b).ptr ≡ fresh)
      × (deref fresh [] s' ≡ returns (v, [], s'))
      × (deref (s.boxes b).ptr [] s'
          ≡ (if contains (held hs) (s.boxes b).ptr then returns (old, [], s') else fault))
  store_lem =
      let (n, s', run, swept) = store-run in
      let unused : mentions xs fresh ≡ false =
        ground (arith, Promised-live xs s.values fresh inv.promised) in
      let at_fresh = swept.values fresh in
      let at_old = swept.values (s.boxes b).ptr in
      (
        s',
        run,
        rw swept.boxes (ap (λ (x : AtomBox.AtomBox). x.ptr) (update_self s.boxes b _)),
        deref-live s' fresh v (ground arith),
        elim (Bool-cases (contains (held hs) (s.boxes b).ptr)) [
          | inl is_held ↦ rw is_held (deref-live s' (s.boxes b).ptr old (ground arith))
          | inr not_held ↦ rw not_held (
              deref-dropped s' (s.boxes b).ptr
                (ground (arith, eq→== (s.boxes b).ptr (s.boxes b).ptr refl)))
        ],
      )
