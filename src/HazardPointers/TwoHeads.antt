-- ===== src/HazardPointers/TwoHeads.antt =====
-- The two-headed list as the hazard pointers of a domain (the feature `bicephany`), and what a domain
-- does with its nodes: a `Node` dereferences to the pointer that it holds.
use atom_box.Prelude.{
  ℕ, suc, ◌≡◌, refl, Bool, true, false, List, [], ◌∷◌, Option, none, some, arith, eq→==,
}
use atom_box.Machine.{Ptr, null, M, returns, Lens, ◌within◌, is_free, access, read}
use atom_box.LockFreeList.Chain.{Cells}
use atom_box.LockFreeList.Entry.{entry, replaced}
use atom_box.LockFreeList.Order.{addresses}
use atom_box.Bicephaly.{
  Bicephaly, at_nodes, get_available, set_node_available, push_in_use, iter, next,
}
use atom_box.Bicephaly.Pool.{member, Chain, added, not-member}
use atom_box.Bicephaly.Reuse.{popped, get_available-popped, set_node_available-returned, returned}
use atom_box.Bicephaly.Refinement.{get_available-none, push_in_use-added}
use atom_box.World.{update}
use atom_box.HazardPointers.{HazardPointers, Found}
use atom_box.HazardPointers.Values.{Values, Values-entry, entry-member}
use atom_box.HazardPointers.Pooled.{
  Holds, set, set-Holds, popped-Holds, returned-Holds, added-Holds,
}

module _ {S : Type 0} (self : Lens S (Bicephaly Ptr)) where
  unfoldable pub load : Ptr → M S Ptr
  load node = read (at_nodes within self) node λ n. n.value

  unfoldable pub store : Ptr → Ptr → M S (Unit {0})
  store node value = access (at_nodes within self) node λ n. (tt, record n { value = value })

module _ {S : Type 0} (self : Lens S (Bicephaly Ptr)) where
  abbrev pub Models : S → Cells Ptr → (Ptr → Bool) → Type 0
  Models s ns used = (free : List Ptr) × Holds (self.get s) ns used free

  abbrev pub At : S → Ptr → Cells Ptr → Type 0
  At s q ns =
      Chain (λ n. n.next_in_use) (self.get s).nodes q (addresses ns) × Values (self.get s).nodes ns

  module _ (s : S) (ns : Cells Ptr) (used : Ptr → Bool) where
    pub store-Models :
        (a p q : Ptr)
        → Models s ns used
        → entry ns a ≡ some p
        → used a ≡ true
        → (s' : S) × (store self a q [] s ≡ returns (tt, [], s')) × Models s' (replaced ns a q) used
    unfolding store access
    store-Models a p q (free, h) e in_use =
        let (n, own, _) = Values-entry (self.get s).nodes ns a p h.values e in
        (
          self.put (set (self.get s) ns used a n q) s,
          rw own refl,
          (free, rw self.get-put (set-Holds (self.get s) ns used free a p q n h own e in_use)),
        )

    get_available-first :
        (rounds : ℕ) (free : List Ptr)
        → Holds (self.get s) ns used free
        → (found : Option Ptr) × (s' : S) × (get_available self (suc rounds) [] s
            ≡ returns (found, [], s'))
          × Found (s' ≡ s) (Models s') ns used found
    get_available-first rounds [] h = (none, s, get_available-none self rounds s h.pool.ready, refl)
    get_available-first rounds (p ∷ free) h =
        let (n, e, own, _) = h.pool.ready in
        let first : member (p ∷ free) p ≡ true = ground (arith, eq→== p p refl) in
        let empty : entry ns p ≡ some null = h.empty p first in
        (
          some p,
          self.put (popped (self.get s) n) s,
          rw (get_available-popped self rounds s n (rw e own)) (rw e refl),
          (
            empty,
            ground (arith, h.available p null empty, first),
            (free, rw self.get-put (popped-Holds (self.get s) ns used p free h)),
          ),
        )

    pub get_available-Models :
        (rounds : ℕ)
        → Models s ns used
        → (found : Option Ptr) × (s' : S) × (get_available self (suc rounds) [] s
            ≡ returns (found, [], s'))
          × Found (s' ≡ s) (Models s') ns used found
    get_available-Models rounds (free, h) = get_available-first rounds free h

    pub set_node_available-Models :
        (rounds : ℕ) (a : Ptr)
        → Models s ns used
        → entry ns a ≡ some null
        → used a ≡ true
        → (s' : S) × (set_node_available self (suc rounds) a [] s ≡ returns (tt, [], s'))
          × Models s' ns (update used a false)
    set_node_available-Models rounds a (free, h) e in_use =
        let (n, own, _) = Values-entry (self.get s).nodes ns a null h.values e in
        (
          self.put (returned (self.get s) a n) s,
          set_node_available-returned self rounds a s n own,
          (a ∷ free, rw self.get-put (returned-Holds (self.get s) ns used free a n h own e in_use)),
        )

    pub push_in_use-Models :
        (rounds : ℕ) (fresh p : Ptr)
        → Models s ns used
        → is_free (self.get s).nodes fresh ≡ true
        → (entry ns fresh ≡ none)
          × (s' : S) × (push_in_use self (suc rounds) fresh p [] s ≡ returns (fresh, [], s'))
          × Models s' ((fresh, p) ∷ ns) (update used fresh true)
    push_in_use-Models rounds fresh p (free, h) unused = (
      entry-member ns fresh (not-member (self.get s) (addresses ns) free h.pool fresh unused),
      self.put (added (self.get s) fresh p) s,
      push_in_use-added self rounds s fresh p unused,
      (free, rw self.get-put (added-Holds (self.get s) ns used free fresh p h unused)),
    )

  pub iter_head : (s : S) → iter self [] s ≡ returns ((self.get s).in_use_head, [], s)
  unfolding iter
  iter_head s = refl

  pub next_none : (s : S) (q : Ptr) → q ≡ null → next self q [] s ≡ returns (none, [], s)
  unfolding next
  next_none s q e = rw e refl

  pub next_some :
      (s : S) (q a p : Ptr) (ns : Cells Ptr)
      → At s q ((a, p) ∷ ns)
      → (r : Ptr) × (next self q [] s ≡ returns (some (a, r), [], s))
        × (load self a [] s ≡ returns (p, [], s))
        × At s r ns
  unfolding next read load
  next_some s q a p ns ((n, e, c, chain), (m, own, same, values)) =
      (n.next_in_use, ground arith, ground arith, (chain, values))

  abbrev pub two_heads : HazardPointers S
  two_heads = record {
    load = load self;
    store = store self;
    get_available = get_available self;
    set_node_available = set_node_available self;
    push_in_use = push_in_use self;
    iter = iter self;
    next = next self;
    free = λ s. is_free (self.get s).nodes;
    Models = Models;
    At = At;
    store-replaced = store-Models;
    get_available-used = λ rounds s ns used m _. get_available-Models s ns used rounds m;
    set_node_available-unused = λ rounds s ns used. set_node_available-Models s ns used rounds;
    push_in_use-used = λ rounds s ns used. push_in_use-Models s ns used rounds;
    iter-At =
        λ s ns used (free, h). ((self.get s).in_use_head, iter_head s, (h.pool.chain, h.values));
    next-none = λ s q (e, _). next_none s q e;
    next-some = next_some;
  }
