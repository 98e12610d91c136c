-- ===== src/LockFreeList/Entry.antt =====
-- The entry of a list at an address, and a write to it.
use atom_box.Prelude.{
  ◌≡◌, refl, false, [], ◌∷◌, Option, none, some, ◌==◌, if◌then◌else◌, arith, length, Bool-cases,
  inl, inr, ap, suc,
}
use atom_box.Machine.{Ptr, Heap, write, cell}
use atom_box.LockFreeList.{Node}
use atom_box.LockFreeList.Chain.{Cells, node, has, Seg, frame}

module _ {T : Type 0} where
  abbrev pub entry : Cells T → Ptr → Option T
  entry [] a = none
  entry ((b, v) ∷ xs) a = if b == a then some v else entry xs a

  abbrev pub replaced : Cells T → Ptr → T → Cells T
  replaced [] a w = []
  replaced ((b, v) ∷ xs) a w = if b == a then (b, w) ∷ xs else (b, v) ∷ replaced xs a w

  pub length-replaced : (xs : Cells T) (a : Ptr) (w : T) → length (replaced xs a w) ≡ length xs
  length-replaced [] a w = refl
  length-replaced ((b, v) ∷ xs) a w = elim (Bool-cases (b == a)) [
    | inl here ↦ rw here
    | inr other ↦ rw other (ap suc (length-replaced xs a w))
  ]

  has-replaced : (xs : Cells T) (a b : Ptr) (w : T) → has b (replaced xs a w) ≡ has b xs
  has-replaced [] a b w = refl
  has-replaced ((c, v) ∷ xs) a b w = ground (arith, has-replaced xs a b w)

  pub entry-replaced :
      (xs : Cells T) (a b : Ptr) (w : T) → (a == b) ≡ false → entry (replaced xs a w) b ≡ entry xs b
  entry-replaced [] a b w other = refl
  entry-replaced ((c, v) ∷ xs) a b w other = ground (arith, entry-replaced xs a b w other)

  pub entry-replaced_here :
      (xs : Cells T) (a : Ptr) (v w : T) → entry xs a ≡ some v → entry (replaced xs a w) a ≡ some w
  entry-replaced_here [] a v w e = cc
  entry-replaced_here ((b, u) ∷ xs) a v w e = ground (arith, entry-replaced_here xs a v w)

  pub entry-replaced_self :
      (xs : Cells T) (a : Ptr) (v w : T) → entry (replaced xs a w) a ≡ some v → v ≡ w
  entry-replaced_self [] a v w e = cc
  entry-replaced_self ((c, u) ∷ xs) a v w e = elim (Bool-cases (c == a)) [
    | inl here ↦ ground arith
    | inr other ↦ entry-replaced_self xs a v w (ground arith)
  ]

  -- The cell of an entry.
  pub entry-cell :
      (h : Heap (Node T)) (stop p a : Ptr) (v : T) (xs : Cells T)
      → Seg h stop p xs
      → entry xs a ≡ some v
      → (q : Ptr) × (cell h a ≡ some (node v q))
  entry-cell h stop p a v [] s e = cc
  entry-cell h stop p a v ((b, w) ∷ xs) (q, same, c, o, s) e = elim (Bool-cases (b == a)) [
    | inl here ↦ (q, ground arith)
    | inr other ↦ entry-cell h stop q a v xs s (ground arith)
  ]

  -- A write of a value to one cell.
  pub Seg-replaced :
      (h : Heap (Node T)) (stop p a q : Ptr) (v w : T) (xs : Cells T)
      → cell h a ≡ some (node v q)
      → Seg h stop p xs
      → Seg (write h a (some (node w q))) stop p (replaced xs a w)
  Seg-replaced h stop p a q v w [] own s = s
  Seg-replaced h stop p a q v w ((b, u) ∷ xs) own (r, same, c, o, s) = elim (Bool-cases (b == a)) [
    | inl here ↦ rw here (r, same, ground arith, o, frame h _ stop r xs (λ e i. ground arith) s)
    | inr other ↦ rw other (
      r,
      same,
      ground arith,
      ground (arith, has-replaced xs a b w),
      Seg-replaced h stop r a q v w xs own s,
    )
  ]
