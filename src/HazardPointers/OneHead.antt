-- ===== src/HazardPointers/OneHead.antt =====
-- The hazard pointer list as the hazard pointers of a domain.
use atom_box.Prelude.{
  ℕ, suc, ◌<◌, ◌≡◌, refl, sym, subst, Bool, true, false, [], ◌∷◌, none, some, arith, length,
}
use atom_box.Machine.{Ptr, null, returns, Lens, cell, write, is_free, access, read}
use atom_box.LockFreeList.{iter, next}
use atom_box.LockFreeList.Chain.{Cells, node, has, Seg, not-has_free}
use atom_box.LockFreeList.Entry.{entry, replaced, entry-cell, Seg-replaced}
use atom_box.LockFreeList.Order.{addresses, length-addresses}
use atom_box.LockFreeList.Push.{pushed, push-pushed, Seg-pushed}
use atom_box.HazardPointerList.{
  Node, HazardPointerList, load, store, get_available, set_node_available, push_in_use,
}
use atom_box.HazardPointerList.Idle.{
  IsIdle, IsIdle-write, Seg-Shape, find_available-none, set_node_available-given_back,
}
use atom_box.World.{update, update_self}
use atom_box.HazardPointers.{HazardPointers}
use atom_box.HazardPointers.Listed.{
  cells, length-cells, entry-cells, cells-replaced, cells-update_other, cells-update, entry-none,
}

module _ {S : Type 0} (self : Lens S HazardPointerList) where
  abbrev Models : S → Cells Ptr → (Ptr → Bool) → Type 0
  Models s ns used =
      Seg (self.get s).nodes null (self.get s).head (cells ns used) × IsIdle (self.get s).nodes

  abbrev At : S → Ptr → Cells Ptr → Type 0
  At s q ns = (used : Ptr → Bool) × Seg (self.get s).nodes null q (cells ns used)

  -- A write to a node that is in the list.
  module _ (s : S) (ns : Cells Ptr) (used : Ptr → Bool) (a p : Ptr) (m : Models s ns used)
      (e : entry ns a ≡ some p) where
    abbrev old : Node
    old = record { ptr = p; active = used a }

    own : (q : Ptr) × (cell (self.get s).nodes a ≡ some (node old q))
    own = entry-cell (self.get s).nodes null _ a old (cells ns used) m.0 (entry-cells ns used a p e)

    -- The memory with other contents in it.
    abbrev written : Node → S
    written n =
        self.put (record (self.get s) { nodes = write (self.get s).nodes a (some (node n own.0)) })
          s

    written-chain :
        (n : Node)
        → Seg
            (self.get (written n)).nodes
            null
            (self.get (written n)).head
            (replaced (cells ns used) a n)
    written-chain n = rw self.get-put (
        Seg-replaced (self.get s).nodes null (self.get s).head a own.0 old n (cells ns used) own.1
          m.0)

    written-IsIdle :
        (n : Node) → (n.active ≡ false → n.ptr ≡ null) → IsIdle (self.get (written n)).nodes
    written-IsIdle n idle =
        rw self.get-put (IsIdle-write (self.get s).nodes a (node n own.0) m.1 idle)

    store-written :
        (q : Ptr)
        → store self a q [] s ≡ returns (tt, [], written (record { ptr = q; active = used a }))
    unfolding store access
    store-written q = rw own.1 refl

    pub store-Models :
        (q : Ptr)
        → used a ≡ true
        → (s' : S) × (store self a q [] s ≡ returns (tt, [], s')) × Models s' (replaced ns a q) used
    store-Models q in_use =
        let n : Node = record { ptr = q; active = used a } in
        (
          written n,
          store-written q,
          (rw (cells-replaced ns used a q) (written-chain n), written-IsIdle n (λ off. cc)),
        )

  pub set_node_available-Models :
      (s : S) (ns : Cells Ptr) (used : Ptr → Bool) (a : Ptr)
      → Models s ns used
      → entry ns a ≡ some null
      → used a ≡ true
      → (s' : S) × (set_node_available self a [] s ≡ returns (tt, [], s'))
        × Models s' ns (update used a false)
  set_node_available-Models s ns used a m e in_use =
      let n : Node = record { ptr = null; active = false } in
      let (q, there) = own s ns used a null m e in
      (
        written s ns used a null m e n,
        set_node_available-given_back self a s (node (record { ptr = null; active = used a }) q)
            there,
        (
          subst (Seg _ null _) (cells-update ns used a _ _ m.0 e)
              (written-chain s ns used a null m e n),
          written-IsIdle s ns used a null m e n (λ off. refl),
        ),
      )

  pub get_available-Models :
      (rounds : ℕ) (s : S) (ns : Cells Ptr) (used : Ptr → Bool)
      → Models s ns used
      → length ns < suc rounds
      → get_available self (suc rounds) [] s ≡ returns (none, [], s)
  unfolding get_available iter
  get_available-Models rounds s ns used m enough =
      find_available-none self (suc rounds) s (self.get s).head (addresses (cells ns used)) m.1
        (Seg-Shape _ _ (cells ns used) m.0)
        (rw (length-addresses (cells ns used)) (rw (length-cells ns used) enough))

  pub push_in_use-Models :
      (rounds : ℕ) (s : S) (ns : Cells Ptr) (used : Ptr → Bool) (fresh p : Ptr)
      → Models s ns used
      → is_free (self.get s).nodes fresh ≡ true
      → (entry ns fresh ≡ none)
        × (s' : S) × (push_in_use self (suc rounds) fresh p [] s ≡ returns (fresh, [], s'))
        × Models s' ((fresh, p) ∷ ns) (update used fresh true)
  unfolding push_in_use
  push_in_use-Models rounds s ns used fresh p m unused =
      let l : HazardPointerList = self.get s in
      let n : Node = record { ptr = p; active = true } in
      let out : has fresh (cells ns used) ≡ false =
        not-has_free l.nodes null l.head fresh (cells ns used) unused m.0 in
      let same : cells ((fresh, p) ∷ ns) (update used fresh true) ≡ (fresh, n) ∷ cells ns used =
        rw (cells-update_other ns used fresh true out) (rw (update_self used fresh true) refl) in
      (
        entry-none ns used fresh out,
        self.put (pushed l fresh n) s,
        push-pushed self rounds fresh n s unused,
        (
          subst
              (λ (k : HazardPointerList).
                Seg k.nodes null k.head (cells ((fresh, p) ∷ ns) (update used fresh true)))
              (sym (self.get-put (pushed l fresh n) s))
              (subst (Seg _ null _) (sym same) (Seg-pushed l fresh n (cells ns used) unused m.0)),
          rw self.get-put (IsIdle-write l.nodes fresh (node n l.head) m.1 (λ off. cc)),
        ),
      )

  pub next_none : (s : S) (q : Ptr) → q ≡ null → next self q [] s ≡ returns (none, [], s)
  unfolding next
  next_none s q e = rw e refl

  pub next_some :
      (s : S) (q a p : Ptr) (ns : Cells Ptr)
      → At s q ((a, p) ∷ ns)
      → (r : Ptr) × (next self q [] s ≡ returns (some (a, r), [], s))
        × (load self a [] s ≡ returns (p, [], s))
        × At s r ns
  unfolding next read load
  next_some s q a p ns (used, (r, e, c, out, seg)) = (r, ground arith, rw c refl, (used, seg))

  pub iter_head : (s : S) → iter self [] s ≡ returns ((self.get s).head, [], s)
  unfolding iter
  iter_head s = refl

  -- The list of src/domain/hazard_pointer_list.rs.
  abbrev pub one_head : HazardPointers S
  one_head = record {
    load = load self;
    store = store self;
    get_available = get_available self;
    set_node_available = λ _. set_node_available self;
    push_in_use = push_in_use self;
    iter = iter self;
    next = next self;
    free = λ s. is_free (self.get s).nodes;
    Models = Models;
    At = At;
    store-replaced = λ s ns used a p q m e in_use. store-Models s ns used a p m e q in_use;
    get_available-used = λ rounds s ns used m enough.
        (none, s, get_available-Models rounds s ns used m enough, refl);
    set_node_available-unused = λ rounds. set_node_available-Models;
    push_in_use-used = push_in_use-Models;
    iter-At = λ s ns used m. ((self.get s).head, iter_head s, (used, m.0));
    next-none = λ s q (used, e). next_none s q e;
    next-some = next_some;
  }
