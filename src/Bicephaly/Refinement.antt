-- ===== src/Bicephaly/Refinement.antt =====
-- The calls of a thread that runs alone, as the calls of a pool.
use atom_box.Prelude.{
  ℕ, suc, ◌+◌, ◌%◌, ◌≡◌, refl, ◌∙◌, true, false, List, [], ◌∷◌, Option, none, some, arith, eq→==,
  ap, fun_ext,
}
use atom_box.Machine.{
  Ptr, null, returns, Heap, write, cell, is_free, Lens, box_new, compare_exchange_weak, access,
}
use atom_box.LockFreeList.{isize_mod}
use atom_box.Bicephaly.{
  Node, Bicephaly, new_node, push_node_loop, push_node, push_in_use_node, get_available, pop_loop,
  pop_available_node, set_node_available, push_in_use,
}
use atom_box.Bicephaly.Reuse.{popped, returned, get_available-popped, set_node_available-returned}
use atom_box.Bicephaly.Pool.{
  member, Chain-cell, IsPool, first, rest, returned-IsPool, added, added-IsPool,
}

write-write :
    {T : Type 0} (h : Heap (Node T)) (p : Ptr) (c d : Option (Node T))
    → write (write h p c) p d ≡ write h p d
write-write h p c d = fun_ext λ q. ground arith

module _ {T : Type 0} (l : Bicephaly T) (all : List Ptr) where
  pub popped-IsPool :
      (p : Ptr) (free : List Ptr) (pool : IsPool l all (p ∷ free))
      → IsPool (popped l (pool.ready.0)) all free
  popped-IsPool p free pool = record {
    chain = pool.chain;
    ready = pool.ready.3;
    distinct = pool.distinct;
    once = pool.once.1;
    subset = λ a i. pool.subset a (ground arith);
    all_counted = pool.all_counted;
    free_counted = omega (arith, pool.free_counted);
  }

-- The list once the node `p` has been put in front of all the others.
abbrev inserted : {T : Type 0} → Bicephaly T → Ptr → Node T → Bicephaly T
inserted l p n = record l {
  in_use_head = p;
  in_use_count = (l.in_use_count + 1) % isize_mod;
  nodes = write l.nodes p (some (record n { next_in_use = l.in_use_head }));
}

push_in_use_node-inserted :
    {S T : Type 0} (self : Lens S (Bicephaly T)) (rounds : ℕ) (s : S) (p : Ptr) (n : Node T)
    → cell (self.get s).nodes p ≡ some n
    → push_in_use_node self (suc rounds) p [] s
      ≡ returns (p, [], self.put (inserted (self.get s) p n) s)
unfolding push_in_use_node push_node push_node_loop compare_exchange_weak access
push_in_use_node-inserted self rounds s p n own =
    let l = self.get s in
    rw own (
      rw self.get-put
        (rw (eq→== l.in_use_head l.in_use_head refl) (simp (self.get-put, self.put-put))))

module _ {S T : Type 0} (self : Lens S (Bicephaly T)) (rounds : ℕ) (s : S) where
  pub get_available-none :
      (self.get s).available_head ≡ null
      → get_available self (suc rounds) [] s ≡ returns (none, [], s)
  unfolding get_available pop_available_node pop_loop
  get_available-none e = rw e refl

  pub push_in_use-added :
      (fresh : Ptr) (v : T)
      → is_free (self.get s).nodes fresh ≡ true
      → push_in_use self (suc rounds) fresh v [] s
        ≡ returns (fresh, [], self.put (added (self.get s) fresh v) s)
  unfolding push_in_use box_new
  push_in_use-added fresh v free =
      let l : Bicephaly T = self.get s in
      let born : Bicephaly T = record l { nodes = write l.nodes fresh (some (new_node v)) } in
      let own : cell (self.get (self.put born s)).nodes fresh ≡ some (new_node v) =
        rw (self.get-put born s) (ground (arith, free)) in
      rw free (
        push_in_use_node-inserted self rounds (self.put born s) fresh (new_node v) own
        ∙ rw (self.get-put born s) (simp (self.put-put, write-write)))

  module _ (all : List Ptr) where
    pub get_available-first :
        (free : List Ptr)
        → IsPool (self.get s) all free
        → (s' : S) × (get_available self (suc rounds) [] s ≡ returns (first free, [], s'))
          × IsPool (self.get s') all (rest free)
    get_available-first [] pool = (s, get_available-none pool.ready, pool)
    get_available-first (p ∷ free) pool =
        let (n, e, own, _) = pool.ready in
        (
          self.put (popped (self.get s) n) s,
          get_available-popped self rounds s n (rw e own)
              ∙ ap (λ q. returns (some q, [], self.put (popped (self.get s) n) s)) e,
          rw self.get-put (popped-IsPool (self.get s) all p free pool),
        )

    -- A thread that runs alone uses the list as a pool of nodes: `get_available` takes the node that
    -- was given back last, and finds none exactly when none is available; `set_node_available` makes
    -- a node of the pool available that is not yet; `push_in_use` adds a node that is in use, at a
    -- free address. Each call leaves the pool well formed: all its nodes can be visited, no
    -- available node stands twice, and both counts are right modulo 2 ^ 64.
    pub calls-IsPool :
        (free : List Ptr)
        → IsPool (self.get s) all free
        → ((s' : S) × (get_available self (suc rounds) [] s ≡ returns (first free, [], s'))
            × IsPool (self.get s') all (rest free))
          × ((p : Ptr)
              → member all p ≡ true
              → member free p ≡ false
              → (s' : S) × (set_node_available self (suc rounds) p [] s ≡ returns (tt, [], s'))
                × IsPool (self.get s') all (p ∷ free))
          × ((fresh : Ptr) (v : T)
              → is_free (self.get s).nodes fresh ≡ true
              → (s' : S) × (push_in_use self (suc rounds) fresh v [] s ≡ returns (fresh, [], s'))
                × IsPool (self.get s') (fresh ∷ all) free)
    calls-IsPool free pool = (
      get_available-first free pool,
      λ p here out.
          let (n, own) = Chain-cell (λ n. n.next_in_use) _ _ p all pool.chain here in
          (
            self.put (returned (self.get s) p n) s,
            set_node_available-returned self rounds p s n own,
            rw self.get-put (returned-IsPool (self.get s) all free pool p n own here out),
          ),
      λ fresh v unused. (
        self.put (added (self.get s) fresh v) s,
        push_in_use-added fresh v unused,
        rw self.get-put (added-IsPool (self.get s) all free pool fresh v unused),
      ),
    )
