-- ===== src/HazardPointerList/Idle.antt =====
-- Nodes that are inactive and hold no pointer, among which `get_available` finds none.
use atom_box.Prelude.{
  ℕ, zero, suc, ◌<◌, ◌≡◌, refl, ◌⊎◌, inl, inr, true, false, List, [], ◌∷◌, none, some, ◌==◌, arith,
  length, eq→==, Bool-cases,
}
use atom_box.Machine.{Ptr, null, returns, starved, Heap, write, cell, is_free, access, read, Lens}
use atom_box.LockFreeList
use atom_box.LockFreeList.{LockFreeList, next, iter, push}
use atom_box.LockFreeList.Chain.{Cells, node, Seg, write-write}
use atom_box.LockFreeList.Order.{addresses}
use atom_box.HazardPointerList.{
  Node, HazardPointerList, find_available, is_available, set_node_available,
}

abbrev pub Nodes : Type 0
Nodes = Heap (LockFreeList.Node Node)

-- From `p` the `next` pointers lead through `xs` to the end.
abbrev pub Shape : Nodes → Ptr → List Ptr → Type 0
Shape h p [] = p ≡ null
Shape h p (a ∷ xs) =
    (n : LockFreeList.Node Node) × (p ≡ a) × (cell h a ≡ some n) × Shape h n.next xs

pub Seg-Shape : (h : Nodes) (p : Ptr) (hs : Cells Node) → Seg h null p hs → Shape h p (addresses hs)
Seg-Shape h p [] s = s
Seg-Shape h p ((a, n) ∷ hs) (q, e, c, o, s) = (node n q, e, c, Seg-Shape h q hs s)

-- No inactive node holds a pointer.
abbrev pub IsIdle : Nodes → Type 0
IsIdle h =
    (a : Ptr) (n : LockFreeList.Node Node)
    → cell h a ≡ some n
    → n.value.active ≡ false
    → n.value.ptr ≡ null

pub record IsWellFormed (l : HazardPointerList) : Type 0 where
  pub linked : (xs : List Ptr) × Shape l.nodes l.head xs
  pub idle : IsIdle l.nodes

module _ (h : Nodes) (a : Ptr) (n : LockFreeList.Node Node) where
  -- A write that keeps the link, and one to an unused address.
  pub Shape-write :
      (m : LockFreeList.Node Node) (p : Ptr) (xs : List Ptr)
      → cell h a ≡ some m
      → n.next ≡ m.next
      → Shape h p xs
      → Shape (write h a (some n)) p xs
  Shape-write m p [] own same s = s
  Shape-write m p (b ∷ xs) own same (k, e, c, s) = elim (Bool-cases (b == a)) [
    | inl here ↦ (
      n,
      e,
      ground arith,
      let link : k.next ≡ n.next = ground arith in rw (← link) (Shape-write m k.next xs own same s),
    )
    | inr other ↦ (k, e, ground arith, Shape-write m k.next xs own same s)
  ]

  pub Shape-write_free :
      (p : Ptr) (xs : List Ptr)
      → is_free h a ≡ true
      → Shape h p xs
      → Shape (write h a (some n)) p xs
  Shape-write_free p [] free s = s
  Shape-write_free p (b ∷ xs) free (k, e, c, s) =
      (k, e, ground arith, Shape-write_free k.next xs free s)

  pub IsIdle-write :
      IsIdle h → (n.value.active ≡ false → n.value.ptr ≡ null) → IsIdle (write h a (some n))
  IsIdle-write idle new b m c off = ground (arith, idle b m)

module _ {S : Type 0} (self : Lens S HazardPointerList) where
  next-some :
      (s : S) (p : Ptr) (n : LockFreeList.Node Node)
      → cell (self.get s).nodes p ≡ some n
      → next self p [] s ≡ returns (some (p, n.next), [], s)
  unfolding next read
  next-some s p n c = ground arith

  is_available-false :
      (s : S) (p : Ptr) (n : LockFreeList.Node Node)
      → cell (self.get s).nodes p ≡ some n
      → (n.value.active ≡ false → n.value.ptr ≡ null)
      → is_available self p [] s ≡ returns (false, [], s)
  unfolding is_available read
  is_available-false s p n c idle = rw c (ground arith)

  pub find_available-none :
      (rounds : ℕ) (s : S) (p : Ptr) (xs : List Ptr)
      → IsIdle (self.get s).nodes
      → Shape (self.get s).nodes p xs
      → length xs < rounds
      → find_available self rounds p [] s ≡ returns (none, [], s)
  unfolding find_available next read is_available
  find_available-none zero s p xs idle shape enough = absurd (omega arith)
  find_available-none (suc rounds) s p [] idle shape enough = ground arith
  find_available-none (suc rounds) s p (a ∷ xs) idle (n, e, c, shape) enough =
      rw (next-some s p n (rw e c), is_available-false s p n (rw e c) (idle a n c))
        (find_available-none rounds s n.next xs idle shape (omega arith))

  -- What a search that may be cut short answers.
  pub find_available-idle :
      (rounds : ℕ) (s : S) (p : Ptr) (xs : List Ptr)
      → IsIdle (self.get s).nodes
      → Shape (self.get s).nodes p xs
      → (find_available self rounds p [] s ≡ returns (none, [], s))
        ⊎ (find_available self rounds p [] s ≡ starved)
  unfolding find_available next
  find_available-idle zero s p xs idle shape = inr refl
  find_available-idle (suc rounds) s p [] idle shape = inl (ground arith)
  find_available-idle (suc rounds) s p (a ∷ xs) idle (n, e, c, shape) =
      rw (next-some s p n (rw e c), is_available-false s p n (rw e c) (idle a n c))
        (find_available-idle rounds s n.next xs idle shape)

-- A node after it has been given back.
abbrev pub given_back : LockFreeList.Node Node → LockFreeList.Node Node
given_back n = record n { value = record { ptr = null; active = false } }

pub set_node_available-given_back :
    {S : Type 0} (self : Lens S HazardPointerList) (a : Ptr) (s : S) (n : LockFreeList.Node Node)
    → cell (self.get s).nodes a ≡ some n
    → set_node_available self a [] s
      ≡ returns (
        tt,
        [],
        self.put
            (record (self.get s) { nodes = write (self.get s).nodes a (some (given_back n)) })
            s,
      )
unfolding set_node_available access
set_node_available-given_back self a s n own =
    let there : (a == null) ≡ false = ground arith in
    rw (own, there)
      (rw self.get-put (rw (eq→== a a refl) (simp (self.get-put, self.put-put, write-write))))
