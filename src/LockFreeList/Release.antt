-- ===== src/LockFreeList/Release.antt =====
-- The drop of a list gives its nodes back, and each only once.
use atom_box.Prelude.{
  ℕ, zero, suc, ◌<◌, ◌≡◌, refl, ap, sym, subst, ◌∙◌, false, [], ◌∷◌, none, some, ◌==◌,
  if◌then◌else◌, arith, length, ==→eq,
}
use atom_box.Machine.{Ptr, null, returns, Heap, write, Lens, box_drop}
use atom_box.LockFreeList.{Node, LockFreeList, drop_loop, drop}
use atom_box.LockFreeList.Chain.{Cells, has, Seg, frame, node}

module _ {T : Type 0} where
  -- The heap without the nodes.
  abbrev pub without : Heap (Node T) → Cells T → Heap (Node T)
  without h [] = h
  without h ((a, _) ∷ xs) = without (write h a none) xs

  pub without_lem :
      (h : Heap (Node T)) (xs : Cells T) (a : Ptr)
      → without h xs a ≡ (if has a xs then none else h a)
  without_lem h [] a = refl
  without_lem h ((b, v) ∷ xs) a = ground (arith, without_lem (write h b none) xs a, ==→eq b a)

-- `view` is a part of the memory outside the list.
module _ {S T A : Type 0} (self : Lens S (LockFreeList T)) (view : S → A)
    (outside : (l : LockFreeList T) (s : S) → view (self.put l s) ≡ view s) where
  abbrev emptied : LockFreeList T → Cells T → LockFreeList T
  emptied l xs = record l { nodes = without l.nodes xs }

  drop_loop-emptied :
      (rounds : ℕ) (p : Ptr) (s : S) (xs : Cells T)
      → Seg (self.get s).nodes null p xs
      → length xs < rounds
      → (s' : S) × (drop_loop self rounds p [] s ≡ returns (tt, [], s'))
        × (self.get s' ≡ emptied (self.get s) xs)
        × (view s' ≡ view s)
  unfolding drop_loop box_drop
  drop_loop-emptied zero p s xs seg enough = absurd (omega arith)
  drop_loop-emptied (suc rounds) p s [] seg enough = (s, ground arith, refl, refl)
  drop_loop-emptied (suc rounds) p s ((a, v) ∷ xs) (q, e, c, o, seg) enough =
      let l = self.get s in
      let l' : LockFreeList T = record l { nodes = write l.nodes a none } in
      let seg' : Seg (self.get (self.put l' s)).nodes null q xs =
        rw (self.get-put l' s) (frame l.nodes _ null q xs (λ b i. ground arith) seg) in
      let there : (a == null) ≡ false = ground (arith, c) in
      let found : l.nodes a ≡ some (node v q) = ground (arith, c, there) in
      let (s', run, empty, same) =
        drop_loop-emptied rounds q (self.put l' s) xs seg' (omega arith) in
      (
        s',
        subst (λ x. drop_loop self (suc rounds) x [] s ≡ returns (tt, [], s')) (sym e)
            (rw there (rw found run)),
        empty ∙ ap (λ k. emptied k xs) (self.get-put l' s),
        same ∙ outside l' s,
      )

  -- The drop of the list `xs` by a thread that runs alone, with more rounds than there are nodes,
  -- frees each of its nodes, and no other, without a fault; a part of the memory outside the list
  -- does not change.
  pub drop_lem :
      (rounds : ℕ) (s : S) (xs : Cells T)
      → Seg (self.get s).nodes null (self.get s).head xs
      → length xs < rounds
      → (s' : S) × (drop self rounds [] s ≡ returns (tt, [], s'))
        × ((a : Ptr) → (self.get s').nodes a ≡ (if has a xs then none else (self.get s).nodes a))
        × (view s' ≡ view s)
  unfolding drop
  drop_lem rounds s xs seg enough =
      let (s', run, empty, same) = drop_loop-emptied rounds (self.get s).head s xs seg enough in
      (s', run, λ a. rw empty (without_lem (self.get s).nodes xs a), same)

-- The drop of an empty list does nothing.
pub drop-null :
    {S T : Type 0} (self : Lens S (LockFreeList T)) (rounds : ℕ) (s : S)
    → (self.get s).head ≡ null
    → 0 < rounds
    → drop self rounds [] s ≡ returns (tt, [], s)
unfolding drop drop_loop
drop-null self zero s empty enough = absurd (omega arith)
drop-null self (suc rounds) s empty enough = ground arith
