-- ===== src/HazardPointers/Values.antt =====
-- The addresses that the nodes of the two-headed list hold.
use atom_box.Prelude.{
  ◌≡◌, refl, true, false, [], ◌∷◌, Option, none, some, ◌==◌, arith, Bool-cases, inl, inr, ap, subst,
  ==→eq,
}
use atom_box.Machine.{Ptr, Heap, write, cell}
use atom_box.LockFreeList.Chain.{Cells}
use atom_box.LockFreeList.Entry.{entry, replaced}
use atom_box.LockFreeList.Order.{addresses}
use atom_box.Bicephaly.{Node}
use atom_box.Bicephaly.Pool.{member, AreDistinct}

abbrev pub Values : Heap (Node Ptr) → Cells Ptr → Type 0
Values h [] = Unit {0}
Values h ((a, p) ∷ ns) = (n : Node Ptr) × (cell h a ≡ some n) × (n.value ≡ p) × Values h ns

pub member-entry :
    (ns : Cells Ptr) (a p : Ptr) → entry ns a ≡ some p → member (addresses ns) a ≡ true
member-entry [] a p e = cc
member-entry ((b, q) ∷ ns) a p e = ground (arith, member-entry ns a p)

pub entry-member : (ns : Cells Ptr) (a : Ptr) → member (addresses ns) a ≡ false → entry ns a ≡ none
entry-member [] a out = refl
entry-member ((b, q) ∷ ns) a out = ground (arith, entry-member ns a)

pub addresses-replaced : (ns : Cells Ptr) (a q : Ptr) → addresses (replaced ns a q) ≡ addresses ns
addresses-replaced [] a q = refl
addresses-replaced ((b, p) ∷ ns) a q = elim (Bool-cases (b == a)) [
  | inl here ↦ rw here refl
  | inr other ↦ rw other (ap (λ xs. b ∷ xs) (addresses-replaced ns a q))
]

module _ (h : Heap (Node Ptr)) where
  pub Values-entry :
      (ns : Cells Ptr) (a p : Ptr)
      → Values h ns
      → entry ns a ≡ some p
      → (n : Node Ptr) × (cell h a ≡ some n) × (n.value ≡ p)
  Values-entry [] a p v e = cc
  Values-entry ((b, q) ∷ ns) a p (n, own, same, v) e = elim (Bool-cases (b == a)) [
    | inl here ↦ (n, ground arith, ground arith)
    | inr other ↦ Values-entry ns a p v (ground arith)
  ]

  -- A node that is written again and holds the same address, and one that is not in the list.
  pub Values-relinked :
      (ns : Cells Ptr) (a : Ptr) (m n : Node Ptr)
      → cell h a ≡ some m
      → n.value ≡ m.value
      → Values h ns
      → Values (write h a (some n)) ns
  Values-relinked [] a m n own same v = tt
  Values-relinked ((b, q) ∷ ns) a m n own same (k, c, e, v) = elim (Bool-cases (b == a)) [
    | inl here ↦ (n, ground arith, ground arith, Values-relinked ns a m n own same v)
    | inr other ↦ (k, ground arith, e, Values-relinked ns a m n own same v)
  ]

  pub Values-write :
      (ns : Cells Ptr) (a : Ptr) (c : Option (Node Ptr))
      → member (addresses ns) a ≡ false
      → Values h ns
      → Values (write h a c) ns
  Values-write [] a c out v = tt
  Values-write ((b, q) ∷ ns) a c out (k, own, e, v) =
      (k, ground arith, e, Values-write ns a c (ground arith) v)

  -- A node that holds another address from now on.
  pub Values-replaced :
      (ns : Cells Ptr) (a : Ptr) (m n : Node Ptr)
      → cell h a ≡ some m
      → AreDistinct (addresses ns)
      → Values h ns
      → Values (write h a (some n)) (replaced ns a n.value)
  Values-replaced [] a m n own once v = tt
  Values-replaced ((b, q) ∷ ns) a m n own once (k, c, e, v) = elim (Bool-cases (b == a)) [
    | inl here ↦ rw here (
      n,
      ground arith,
      refl,
      Values-write ns a (some n)
          (subst (λ x. member (addresses ns) x ≡ false) (==→eq b a here) once.0) v,
    )
    | inr other ↦ rw other (k, ground arith, e, Values-replaced ns a m n own once.1 v)
  ]
