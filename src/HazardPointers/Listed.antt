-- ===== src/HazardPointers/Listed.antt =====
-- The nodes of the hazard pointer list, by the addresses that they hold.
use atom_box.Prelude.{
  suc, ◌≡◌, refl, subst, ap, Bool, false, [], ◌∷◌, none, some, ◌==◌, arith, length, Bool-cases, inl,
  inr, ==→eq,
}
use atom_box.Machine.{Ptr, null}
use atom_box.LockFreeList.Chain.{Cells, has, Seg}
use atom_box.LockFreeList.Entry.{entry, replaced}
use atom_box.HazardPointerList.{Node}
use atom_box.HazardPointerList.Idle.{Nodes}
use atom_box.World.{update}

-- The nodes of the list.
abbrev pub cells : Cells Ptr → (Ptr → Bool) → Cells Node
cells [] used = []
cells ((a, p) ∷ ns) used = (a, record { ptr = p; active = used a }) ∷ cells ns used

pub length-cells : (ns : Cells Ptr) (used : Ptr → Bool) → length (cells ns used) ≡ length ns
length-cells [] used = refl
length-cells (n ∷ ns) used = ap suc (length-cells ns used)

pub entry-cells :
    (ns : Cells Ptr) (used : Ptr → Bool) (a p : Ptr)
    → entry ns a ≡ some p
    → entry (cells ns used) a ≡ some (record { ptr = p; active = used a })
entry-cells [] used a p e = cc
entry-cells ((b, q) ∷ ns) used a p e = elim (Bool-cases (b == a)) [
  | inl here ↦ let same : q ≡ p = ground arith in rw here (rw (==→eq b a here) (rw same refl))
  | inr other ↦ rw other (entry-cells ns used a p (ground arith))
]

pub cells-replaced :
    (ns : Cells Ptr) (used : Ptr → Bool) (a p : Ptr)
    → cells (replaced ns a p) used
      ≡ replaced (cells ns used) a (record { ptr = p; active = used a })
cells-replaced [] used a p = refl
cells-replaced ((b, q) ∷ ns) used a p = elim (Bool-cases (b == a)) [
  | inl here ↦ rw here (rw (==→eq b a here) refl)
  | inr other ↦
      rw other
        (ap (λ xs. (b, record { ptr = q; active = used b }) ∷ xs) (cells-replaced ns used a p))
]

pub cells-update_other :
    (ns : Cells Ptr) (used : Ptr → Bool) (a : Ptr) (u : Bool)
    → has a (cells ns used) ≡ false
    → cells ns (update used a u) ≡ cells ns used
cells-update_other [] used a u out = refl
cells-update_other ((b, q) ∷ ns) used a u out =
    let other : (b == a) ≡ false = ground arith in
    rw other (
      ap (λ xs. (b, record { ptr = q; active = used b }) ∷ xs)
        (cells-update_other ns used a u (ground arith)))

-- A node that holds nothing is given back.
pub cells-update :
    (ns : Cells Ptr) (used : Ptr → Bool) (a : Ptr) (h : Nodes) (q : Ptr)
    → Seg h null q (cells ns used)
    → entry ns a ≡ some null
    → replaced (cells ns used) a (record { ptr = null; active = false })
      ≡ cells ns (update used a false)
cells-update [] used a h q seg e = cc
cells-update ((b, p) ∷ ns) used a h q (r, _, _, out, seg) e = elim (Bool-cases (b == a)) [
  | inl here ↦
      let same : p ≡ null = ground arith in
      let rest : cells ns (update used a false) ≡ cells ns used =
        cells-update_other ns used a false
          (subst (λ x. has x (cells ns used) ≡ false) (==→eq b a here) out) in
      rw here (rw rest (rw same refl))
  | inr other ↦ rw other (
      ap (λ xs. (b, record { ptr = p; active = used b }) ∷ xs)
        (cells-update ns used a h r seg (ground arith)))
]

pub entry-none :
    (ns : Cells Ptr) (used : Ptr → Bool) (a : Ptr)
    → has a (cells ns used) ≡ false
    → entry ns a ≡ none
entry-none [] used a out = refl
entry-none ((b, q) ∷ ns) used a out = ground (arith, entry-none ns used a)
