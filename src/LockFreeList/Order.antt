-- ===== src/LockFreeList/Order.antt =====
-- What a list promises: a stack of nodes with its length, which iteration meets from the newest on.
use atom_box.Prelude.{
  ℕ, zero, suc, ◌+◌, ◌%◌, ◌<◌, ◌≡◌, refl, ap, sym, subst, ◌∙◌, true, false, List, [], ◌∷◌, ◌++◌,
  none, some, arith, length, length-append,
}
use atom_box.Machine.{
  Ptr, null, returns, starved, M, pure, stop, ◌>>=◌, Heap, cell, is_free, Lens, read,
}
use atom_box.LockFreeList.{Node, LockFreeList, isize_mod, push, push_all, iter, next}
use atom_box.LockFreeList.Chain.{Cells, node, has, Seg}
use atom_box.LockFreeList.Push.{
  linked, pushed, push-pushed, push_all-linked, Seg-pushed, Seg-linked,
}

-- The list stands for the nodes `xs`.
pub record IsList {T : Type 0} (l : LockFreeList T) (xs : Cells T) : Type 0 where
  pub items : Seg l.nodes null l.head xs
  pub count : l.count ≡ length xs % isize_mod

abbrev pub addresses : {T : Type 0} → Cells T → List Ptr
addresses [] = []
addresses ((a, _) ∷ xs) = a ∷ addresses xs

pub length-addresses : {T : Type 0} (xs : Cells T) → length (addresses xs) ≡ length xs
length-addresses [] = refl
length-addresses (x ∷ xs) = ap suc (length-addresses xs)

last_node :
    {T : Type 0} (h : Heap (Node T)) (end first last : Ptr) (v : T) (xs : Cells T)
    → Seg h end first (xs ++ (last, v) ∷ [])
    → cell h last ≡ some (node v end)
last_node h end first last v [] (q, e, c, o, s) = c ∙ ap (λ r. some (node v r)) s
last_node h end first last v ((a, w) ∷ xs) (q, e, c, o, s) = last_node h end q last v xs s

module _ {S T : Type 0} (self : Lens S (LockFreeList T)) where
  -- What a `for` loop over the list meets.
  abbrev walk : ℕ → Ptr → M S (List Ptr)
  walk zero p = stop starved
  walk (suc rounds) p = do
    item ← next self p
    elim item [ none ↦ pure [] | some (a, rest) ↦ do others ← walk rounds rest; pure (a ∷ others) ]

  abbrev pub walk_all : ℕ → M S (List Ptr)
  walk_all rounds = do p ← iter self; walk rounds p

  walk-addresses :
      (rounds : ℕ) (p : Ptr) (s : S) (xs : Cells T)
      → Seg (self.get s).nodes null p xs
      → length xs < rounds
      → walk rounds p [] s ≡ returns (addresses xs, [], s)
  unfolding next read
  walk-addresses zero p s xs seg enough = absurd (omega arith)
  walk-addresses (suc rounds) p s [] seg enough = ground arith
  walk-addresses (suc rounds) p s ((a, v) ∷ xs) (q, e, c, o, seg) enough =
      ground (arith, walk-addresses rounds q s xs seg)

  -- The specification of `push` and `iter` in a thread that runs alone: `push`, at a free address, makes
  -- the new node the newest of the list and adds one to its length modulo 2 ^ 64; iteration over a
  -- list, with more rounds than nodes, then meets the new node and after it what it met before.
  pub push-walk_all :
      (rounds rounds' : ℕ) (fresh : Ptr) (v : T) (s : S) (xs : Cells T)
      → IsList (self.get s) xs
      → is_free (self.get s).nodes fresh ≡ true
      → suc (length xs) < rounds'
      → (s' : S) × (push self (suc rounds) fresh v [] s ≡ returns (fresh, [], s'))
        × IsList (self.get s') ((fresh, v) ∷ xs)
        × (walk_all rounds' [] s ≡ returns (addresses xs, [], s))
        × (walk_all rounds' [] s' ≡ returns (fresh ∷ addresses xs, [], s'))
  unfolding iter
  push-walk_all rounds rounds' fresh v s xs is free enough =
      let s' = self.put (pushed (self.get s) fresh v) s in
      let same : self.get s' ≡ pushed (self.get s) fresh v = self.get-put _ s in
      let is' : IsList (self.get s') ((fresh, v) ∷ xs) =
        subst (λ l. IsList l ((fresh, v) ∷ xs)) (sym same)
          (record {
            items = Seg-pushed (self.get s) fresh v xs free is.items;
            count = grew (self.get s).count (length xs) is.count;
          }) in
      (
        s',
        push-pushed self rounds fresh v s free,
        is',
        walk-addresses rounds' (self.get s).head s xs is.items (omega arith),
        walk-addresses rounds' (self.get s').head s' ((fresh, v) ∷ xs) is'.items enough,
      )
    where
      grew : (c n : ℕ) → c ≡ n % isize_mod → (c + 1) % isize_mod ≡ suc n % isize_mod
      grew c n e = rw e (omega arith)

  -- The specification of `push_all` in a thread that runs alone: the caller's nodes, from `first` to
  -- `last`, which are not in the list, come in front of the list in their order, and the length grows
  -- by their number modulo 2 ^ 64.
  pub push_all-append :
      (rounds : ℕ) (first last end : Ptr) (v : T) (s : S) (xs ys : Cells T)
      → IsList (self.get s) ys
      → Seg (self.get s).nodes end first (xs ++ (last, v) ∷ [])
      → ((a : Ptr) → has a (xs ++ (last, v) ∷ []) ≡ true → has a ys ≡ false)
      → (s' : S) × (push_all self (suc rounds) first last (length (xs ++ (last, v) ∷ [])) [] s
          ≡ returns (first, [], s'))
        × IsList (self.get s') (xs ++ (last, v) ∷ ys)
  push_all-append rounds first last end v s xs ys is seg apart =
      let k = length (xs ++ (last, v) ∷ []) in
      let l' = linked (self.get s) first last (node v end) k in
      (
        self.put l' s,
        push_all-linked self rounds first last k s (node v end)
            (last_node (self.get s).nodes end first last v xs seg),
        subst (λ l. IsList l (xs ++ (last, v) ∷ ys)) (sym (self.get-put l' s))
            (record {
              items =
                  Seg-linked (self.get s).nodes (self.get s).head end first last v xs ys seg
                    is.items apart;
              count =
                  grew (self.get s).count k (length ys) (length (xs ++ (last, v) ∷ ys)) is.count (
                    omega (
                      arith,
                      length-append xs ((last, v) ∷ []),
                      length-append xs ((last, v) ∷ ys),
                    ));
            }),
      )
    where
      grew : (c k m n : ℕ) → c ≡ m % isize_mod → k + m ≡ n → (c + k) % isize_mod ≡ n % isize_mod
      grew c k m n e f = rw e (omega arith)
