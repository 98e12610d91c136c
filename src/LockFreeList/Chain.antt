-- ===== src/LockFreeList/Chain.antt =====
-- What a linked list stands for: the nodes from an address on, with their addresses and values.
use atom_box.Prelude.{
  ◌≡◌, refl, fun_ext, Bool, false, true, ◌||◌, List, [], ◌∷◌, ◌++◌, Option, some, ◌==◌, arith,
}
use atom_box.Machine.{Ptr, Heap, write, cell, is_free}
use atom_box.LockFreeList.{Node}

abbrev pub Cells : Type 0 → Type 0
Cells T = List (Ptr × T)

abbrev pub node : {T : Type 0} → T → Ptr → Node T
node v q = record { value = v; next = q }

abbrev pub has : {T : Type 0} → Ptr → Cells T → Bool
has a [] = false
has a ((p, _) ∷ xs) = (p == a) || has a xs

-- From `p` the `next` pointers lead through the distinct nodes `xs` to `stop`.
abbrev pub Seg : {T : Type 0} → Heap (Node T) → Ptr → Ptr → Cells T → Type 0
Seg h stop p [] = p ≡ stop
Seg h stop p ((a, v) ∷ xs) =
    (q : Ptr) × (p ≡ a) × (cell h a ≡ some (node v q)) × (has a xs ≡ false) × Seg h stop q xs

module _ {T : Type 0} where
  pub write-write :
      (h : Heap (Node T)) (p : Ptr) (c d : Option (Node T)) → write (write h p c) p d ≡ write h p d
  write-write h p c d = fun_ext λ q. ground arith

  pub has-append : (a : Ptr) (xs ys : Cells T) → has a (xs ++ ys) ≡ (has a xs || has a ys)
  has-append a [] ys = refl
  has-append a (x ∷ xs) ys = ground (arith, has-append a xs ys)

  -- A segment survives any change that spares its own nodes.
  pub frame :
      (h g : Heap (Node T)) (stop p : Ptr) (xs : Cells T)
      → ((a : Ptr) → has a xs ≡ true → g a ≡ h a)
      → Seg h stop p xs
      → Seg g stop p xs
  frame h g stop p [] same s = s
  frame h g stop p ((a, v) ∷ xs) same (q, e, c, o, s) =
      (q, e, ground (arith, same a), o, frame h g stop q xs (λ b i. same b (ground arith)) s)

  pub append :
      (h : Heap (Node T)) (stop mid p : Ptr) (xs ys : Cells T)
      → ((a : Ptr) → has a xs ≡ true → has a ys ≡ false)
      → Seg h mid p xs
      → Seg h stop mid ys
      → Seg h stop p (xs ++ ys)
  append h stop mid p [] ys apart s t = subst_start s t
    where
      subst_start : p ≡ mid → Seg h stop mid ys → Seg h stop p ys
      subst_start e t = rw e t
  append h stop mid p ((a, v) ∷ xs) ys apart (q, e, c, o, s) t = (
    q,
    e,
    c,
    ground (arith, has-append a xs ys, apart a),
    append h stop mid q xs ys (λ b i. apart b (ground arith)) s t,
  )

  -- An address that the allocator may hand out is in no list.
  pub not-has_free :
      (h : Heap (Node T)) (stop p a : Ptr) (xs : Cells T)
      → is_free h a ≡ true
      → Seg h stop p xs
      → has a xs ≡ false
  not-has_free h stop p a [] free s = refl
  not-has_free h stop p a ((b, v) ∷ xs) free (q, e, c, o, s) =
      ground (arith, not-has_free h stop q a xs free s)
