-- ===== src/HazardPointers/Pooled.antt =====
-- A pool of nodes that hold addresses, and what the calls make of it.
use atom_box.Prelude.{
  ◌≡◌, refl, subst, sym, Bool, true, false, not, List, ◌∷◌, some, ◌==◌, arith, Bool-cases, inl, inr,
}
use atom_box.Machine.{Ptr, null, cell, write, is_free}
use atom_box.LockFreeList.Chain.{Cells}
use atom_box.LockFreeList.Entry.{entry, replaced, entry-replaced}
use atom_box.LockFreeList.Order.{addresses}
use atom_box.Bicephaly.{Node, Bicephaly, new_node}
use atom_box.Bicephaly.Pool.{
  member, Chain-relinked, IsPool, added, added-IsPool, not-member, returned-IsPool,
}
use atom_box.Bicephaly.Reuse.{popped, returned}
use atom_box.Bicephaly.Refinement.{popped-IsPool}
use atom_box.World.{update}
use atom_box.HazardPointers.Values.{
  Values, Values-relinked, Values-write, Values-replaced, member-entry, addresses-replaced,
}

-- The pool has the nodes `ns`, with what they hold; the available ones are those that are not in use,
-- and hold nothing.
pub record Holds (l : Bicephaly Ptr) (ns : Cells Ptr) (used : Ptr → Bool) (free : List Ptr)
    : Type 0 where
  pub pool : IsPool l (addresses ns) free
  pub values : Values l.nodes ns
  pub available : (a p : Ptr) → entry ns a ≡ some p → member free a ≡ not (used a)
  pub empty : (a : Ptr) → member free a ≡ true → entry ns a ≡ some null

module _ (l : Bicephaly Ptr) (ns : Cells Ptr) (used : Ptr → Bool) where
  -- The list once a node holds another address.
  abbrev pub set : Ptr → Node Ptr → Ptr → Bicephaly Ptr
  set a n q = record l { nodes = write l.nodes a (some (record n { value = q })) }

  pub set-Holds :
      (free : List Ptr) (a p q : Ptr) (n : Node Ptr)
      → Holds l ns used free
      → cell l.nodes a ≡ some n
      → entry ns a ≡ some p
      → used a ≡ true
      → Holds (set a n q) (replaced ns a q) used free
  set-Holds free a p q n h own e in_use =
      let m : Node Ptr = record n { value = q } in
      let out : member free a ≡ false = ground (arith, h.available a p e) in
      let pool : IsPool (set a n q) (addresses ns) free = record {
        chain = Chain-relinked _ l.nodes a l.in_use_head n m _ own refl h.pool.chain;
        ready = Chain-relinked _ l.nodes a l.available_head n m _ own refl h.pool.ready;
        distinct = h.pool.distinct;
        once = h.pool.once;
        subset = h.pool.subset;
        all_counted = h.pool.all_counted;
        free_counted = h.pool.free_counted;
      } in
      record {
        pool = subst (λ xs. IsPool (set a n q) xs free) (sym (addresses-replaced ns a q)) pool;
        values = Values-replaced l.nodes ns a n m own h.pool.distinct h.values;
        available = λ b r e'. elim (Bool-cases (a == b)) [
          | inl here ↦ ground (arith, out, in_use)
          | inr other ↦ h.available b r (rw (← entry-replaced ns a b q other) e')
        ];
        empty = λ b i. elim (Bool-cases (a == b)) [
          | inl here ↦ ground arith
          | inr other ↦ rw (entry-replaced ns a b q other) (h.empty b i)
        ];
      }

  pub popped-Holds :
      (p : Ptr) (free : List Ptr) (h : Holds l ns used (p ∷ free))
      → Holds (popped l h.pool.ready.0) ns (update used p true) free
  popped-Holds p free h = record {
    pool = popped-IsPool l (addresses ns) p free h.pool;
    values = h.values;
    available = λ b r e. ground (arith, h.available b r e, h.pool.once.0);
    empty = λ b i. h.empty b (ground arith);
  }

  pub returned-Holds :
      (free : List Ptr) (a : Ptr) (n : Node Ptr)
      → Holds l ns used free
      → cell l.nodes a ≡ some n
      → entry ns a ≡ some null
      → used a ≡ true
      → Holds (returned l a n) ns (update used a false) (a ∷ free)
  returned-Holds free a n h own e in_use = record {
    pool =
        returned-IsPool l (addresses ns) free h.pool a n own (member-entry ns a null e)
          (ground (arith, h.available a null e));
    values = Values-relinked l.nodes ns a n _ own refl h.values;
    available = λ b r e'. ground (arith, h.available b r e');
    empty = λ b i. ground (arith, h.empty b);
  }

  pub added-Holds :
      (free : List Ptr) (fresh p : Ptr)
      → Holds l ns used free
      → is_free l.nodes fresh ≡ true
      → Holds (added l fresh p) ((fresh, p) ∷ ns) (update used fresh true) free
  added-Holds free fresh p h unused =
      let out : member (addresses ns) fresh ≡ false =
        not-member l (addresses ns) free h.pool fresh unused in
      let out' : member free fresh ≡ false = ground (arith, h.pool.subset fresh) in
      record {
        pool = added-IsPool l (addresses ns) free h.pool fresh p unused;
        values = (
          record (new_node p) { next_in_use = l.in_use_head },
          ground arith,
          refl,
          Values-write l.nodes ns fresh _ out h.values,
        );
        available = λ b r e. ground (arith, h.available b r);
        empty = λ b i. ground (arith, h.empty b);
      }
