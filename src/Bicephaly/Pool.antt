-- ===== src/Bicephaly/Pool.antt =====
-- What the two-headed list is for: a pool of nodes, all of which can be visited, and some of which are
-- available.
use atom_box.Prelude.{
  ◌+◌, ◌%◌, ◌≡◌, refl, subst, Bool, true, false, ◌||◌, List, [], ◌∷◌, Option, none, some, ◌==◌,
  arith, length, Bool-cases, inl, inr,
}
use atom_box.Machine.{Ptr, null, Heap, write, cell, is_free}
use atom_box.LockFreeList.{isize_mod}
use atom_box.Bicephaly.{Node, Bicephaly, new_node}
use atom_box.Bicephaly.Reuse.{returned}

abbrev pub member : List Ptr → Ptr → Bool
member [] a = false
member (b ∷ bs) a = (b == a) || member bs a

abbrev pub AreDistinct : List Ptr → Type 0
AreDistinct [] = Unit {0}
AreDistinct (a ∷ xs) = (member xs a ≡ false) × AreDistinct xs

module _ {T : Type 0} (link : Node T → Ptr) where
  -- From `p` the links lead through the nodes `xs` to the end.
  abbrev pub Chain : Heap (Node T) → Ptr → List Ptr → Type 0
  Chain h p [] = p ≡ null
  Chain h p (a ∷ xs) = (n : Node T) × (p ≡ a) × (cell h a ≡ some n) × Chain h (link n) xs

  pub Chain-write :
      (h : Heap (Node T)) (a p : Ptr) (c : Option (Node T)) (xs : List Ptr)
      → member xs a ≡ false
      → Chain h p xs
      → Chain (write h a c) p xs
  Chain-write h a p c [] out s = s
  Chain-write h a p c (b ∷ bs) out (n, e, own, s) =
      (n, e, ground arith, Chain-write h a (link n) c bs (ground arith) s)

  -- A node that is written again, with the same link.
  pub Chain-relinked :
      (h : Heap (Node T)) (a p : Ptr) (m n : Node T) (xs : List Ptr)
      → cell h a ≡ some m
      → link n ≡ link m
      → Chain h p xs
      → Chain (write h a (some n)) p xs
  Chain-relinked h a p m n [] own same s = s
  Chain-relinked h a p m n (b ∷ bs) own same (k, e, c, s) = elim (Bool-cases (b == a)) [
    | inl here ↦ (
      n,
      e,
      ground arith,
      let moved : link k ≡ link n = ground arith in
          subst (λ (q : Ptr). Chain (write h a (some n)) q bs) moved
            (Chain-relinked h a (link k) m n bs own same s),
    )
    | inr other ↦ (k, e, ground arith, Chain-relinked h a (link k) m n bs own same s)
  ]

  -- A node of the chain is on the heap.
  pub Chain-cell :
      (h : Heap (Node T)) (p a : Ptr) (xs : List Ptr)
      → Chain h p xs
      → member xs a ≡ true
      → (n : Node T) × (cell h a ≡ some n)
  Chain-cell h p a [] s i = cc
  Chain-cell h p a (b ∷ bs) (n, e, own, s) i = elim (Bool-cases (b == a)) [
    | inl here ↦ (n, ground arith)
    | inr other ↦ Chain-cell h (link n) a bs s (ground arith)
  ]

-- The list `l` has the nodes `all`, of which `free` are available, in this order.
pub record IsPool {T : Type 0} (l : Bicephaly T) (all free : List Ptr) : Type 0 where
  pub chain : Chain (λ n. n.next_in_use) l.nodes l.in_use_head all
  pub ready : Chain (λ n. n.next_available) l.nodes l.available_head free
  pub distinct : AreDistinct all
  pub once : AreDistinct free
  pub subset : (a : Ptr) → member free a ≡ true → member all a ≡ true
  pub all_counted : l.in_use_count ≡ length all % isize_mod
  pub free_counted : l.available_count ≡ length free % isize_mod

-- The first available node, and the others.
abbrev pub first : List Ptr → Option Ptr
first [] = none
first (a ∷ xs) = some a

abbrev pub rest : List Ptr → List Ptr
rest [] = []
rest (a ∷ xs) = xs

-- The list with a new node, which is in use.
abbrev pub added : {T : Type 0} → Bicephaly T → Ptr → T → Bicephaly T
added l fresh v = record l {
  in_use_head = fresh;
  in_use_count = (l.in_use_count + 1) % isize_mod;
  nodes = write l.nodes fresh (some (record (new_node v) { next_in_use = l.in_use_head }));
}

module _ {T : Type 0} (l : Bicephaly T) (all free : List Ptr) (pool : IsPool l all free) where
  pub returned-IsPool :
      (p : Ptr) (n : Node T)
      → cell l.nodes p ≡ some n
      → member all p ≡ true
      → member free p ≡ false
      → IsPool (returned l p n) all (p ∷ free)
  returned-IsPool p n own here out = record {
    chain = Chain-relinked _ l.nodes p l.in_use_head n _ all own refl pool.chain;
    ready = (
      record n { next_available = l.available_head },
      refl,
      ground arith,
      Chain-write _ l.nodes p l.available_head _ free out pool.ready,
    );
    distinct = pool.distinct;
    once = (out, pool.once);
    subset = λ a i. ground (arith, pool.subset a);
    all_counted = pool.all_counted;
    free_counted = omega (arith, pool.free_counted);
  }

  pub not-member : (fresh : Ptr) → is_free l.nodes fresh ≡ true → member all fresh ≡ false
  not-member fresh free' = elim (Bool-cases (member all fresh)) [
    | inl inside ↦ absurd (
        let (n, own) =
          Chain-cell (λ n. n.next_in_use) l.nodes l.in_use_head fresh all pool.chain inside in
        ground arith)
    | inr out ↦ out
  ]

  pub added-IsPool :
      (fresh : Ptr) (v : T)
      → is_free l.nodes fresh ≡ true
      → IsPool (added l fresh v) (fresh ∷ all) free
  added-IsPool fresh v unused =
      let out : member all fresh ≡ false = not-member fresh unused in
      let out' : member free fresh ≡ false = ground (arith, pool.subset fresh) in
      record {
        chain = (
          record (new_node v) { next_in_use = l.in_use_head },
          refl,
          ground arith,
          Chain-write _ l.nodes fresh l.in_use_head _ all out pool.chain,
        );
        ready = Chain-write _ l.nodes fresh l.available_head _ free out' pool.ready;
        distinct = (out, pool.distinct);
        once = pool.once;
        subset = λ a i. ground (arith, pool.subset a);
        all_counted = omega (arith, pool.all_counted);
        free_counted = pool.free_counted;
      }
