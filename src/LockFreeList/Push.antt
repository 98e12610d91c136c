-- ===== src/LockFreeList/Push.antt =====
-- `push` and `push_all` put nodes in front of a list.
use atom_box.Prelude.{
  ℕ, suc, ◌+◌, ◌%◌, ◌≡◌, refl, ◌∙◌, true, false, [], ◌∷◌, ◌++◌, some, arith, eq→==,
}
use atom_box.Machine.{
  Ptr, null, returns, aborts, Heap, write, cell, Lens, compare_exchange_weak, access, is_free,
  box_new,
}
use atom_box.LockFreeList.{Node, LockFreeList, isize_mod, push_all_loop, push_all, push}
use atom_box.LockFreeList.Chain.{
  Cells, node, has, Seg, write-write, frame, has-append, not-has_free,
}

-- The list once nodes from `first` to `last` stand in front of it.
abbrev pub linked : {T : Type 0} → LockFreeList T → Ptr → Ptr → Node T → ℕ → LockFreeList T
linked l first last n k = record {
  head = first;
  count = (l.count + k) % isize_mod;
  nodes = write l.nodes last (some (record n { next = l.head }));
}

-- The list with a new node in front of it.
abbrev pub pushed : {T : Type 0} → LockFreeList T → Ptr → T → LockFreeList T
pushed l fresh v = record {
  head = fresh;
  count = (l.count + 1) % isize_mod;
  nodes = write l.nodes fresh (some (node v l.head));
}

module _ {S T : Type 0} (self : Lens S (LockFreeList T)) where
  push_all_loop-linked :
      (rounds : ℕ) (first last : Ptr) (k : ℕ) (s : S) (n : Node T)
      → cell (self.get s).nodes last ≡ some n
      → push_all_loop self (suc rounds) (self.get s).head first last k [] s
        ≡ returns (first, [], self.put (linked (self.get s) first last n k) s)
  unfolding push_all_loop compare_exchange_weak access
  push_all_loop-linked rounds first last k s n own = rw own (
      rw self.get-put
        (rw (eq→== (self.get s).head (self.get s).head refl) (simp (self.get-put, self.put-put))))

  -- A thread that runs alone pushes at the first attempt.
  pub push_all-linked :
      (rounds : ℕ) (first last : Ptr) (k : ℕ) (s : S) (n : Node T)
      → cell (self.get s).nodes last ≡ some n
      → push_all self (suc rounds) first last k [] s
        ≡ returns (first, [], self.put (linked (self.get s) first last n k) s)
  unfolding push_all
  push_all-linked rounds first last k s n own = push_all_loop-linked rounds first last k s n own

  pub push-pushed :
      (rounds : ℕ) (fresh : Ptr) (v : T) (s : S)
      → is_free (self.get s).nodes fresh ≡ true
      → push self (suc rounds) fresh v [] s
        ≡ returns (fresh, [], self.put (pushed (self.get s) fresh v) s)
  unfolding push box_new
  push-pushed rounds fresh v s free = rw free (
      push_all-linked rounds fresh fresh 1 (self.put born s) (node v null)
        (rw self.get-put (ground (arith, free)))
      ∙ simp (self.get-put, self.put-put, write-write))
    where
      born : LockFreeList T
      born = record (self.get s) { nodes = write (self.get s).nodes fresh (some (node v null)) }

  pub push-aborts :
      (rounds : ℕ) (fresh : Ptr) (v : T) (s : S)
      → is_free (self.get s).nodes fresh ≡ false
      → push self rounds fresh v [] s ≡ aborts
  unfolding push box_new
  push-aborts rounds fresh v s taken = rw taken

-- `push_all` turns the list `ys` into `xs ++ ys`, where `xs` are the caller's nodes from `first` to
-- `last`.
pub Seg-linked :
    {T : Type 0} (h : Heap (Node T)) (mid end first last : Ptr) (v : T) (xs ys : Cells T)
    → Seg h end first (xs ++ (last, v) ∷ [])
    → Seg h null mid ys
    → ((a : Ptr) → has a (xs ++ (last, v) ∷ []) ≡ true → has a ys ≡ false)
    → Seg (write h last (some (node v mid))) null first (xs ++ (last, v) ∷ ys)
Seg-linked h mid end first last v [] ys (q, e, c, o, s) t apart = (
  mid,
  e,
  ground arith,
  ground (arith, apart last),
  frame h _ null mid ys (λ a i. ground (arith, apart last)) t,
)
Seg-linked h mid end first last v ((a, w) ∷ xs) ys (q, e, c, o, s) t apart = (
  q,
  e,
  ground (arith, has-append a xs ((last, v) ∷ [])),
  ground (arith, has-append a xs ((last, v) ∷ []), has-append a xs ((last, v) ∷ ys), apart a),
  Seg-linked h mid end q last v xs ys s t (λ b i. apart b (ground arith)),
)

-- `push` puts its value in front.
pub Seg-pushed :
    {T : Type 0} (l : LockFreeList T) (fresh : Ptr) (v : T) (ys : Cells T)
    → is_free l.nodes fresh ≡ true
    → Seg l.nodes null l.head ys
    → Seg (pushed l fresh v).nodes null fresh ((fresh, v) ∷ ys)
Seg-pushed l fresh v ys free s =
    let out : has fresh ys ≡ false = not-has_free l.nodes null l.head fresh ys free s in
    let spared : (a : Ptr) → has a ys ≡ true → (pushed l fresh v).nodes a ≡ l.nodes a =
      λ a i. ground (arith, out) in
    (l.head, refl, ground (arith, free), out, frame l.nodes _ null l.head ys spared s)
