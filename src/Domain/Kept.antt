-- ===== src/Domain/Kept.antt =====
-- What `reclaim_unguarded` does to a list of retired items: which it keeps, in which order, and what
-- becomes of the nodes and of the values.
use atom_box.Prelude.{
  ◌+◌, ◌%◌, ◌≡◌, refl, ap, true, false, List, [], ◌∷◌, ◌++◌, Option, none, some, if◌then◌else◌,
  arith, length, Bool-cases, inl, inr,
}
use atom_box.Machine.{Ptr, null, Heap, write, cell}
use atom_box.LockFreeList.{Node, isize_mod}
use atom_box.LockFreeList.Chain.{Cells, node, has, Seg, frame}
use atom_box.World.{Boxed, live, dropped, Retire}
use atom_box.Domain.{contains, Scan}

-- The locals of the loop once the node `a` has been kept.
abbrev pub keep : Ptr → Scan → Scan
keep a l = record {
  still_retired = a;
  tail_ptr = elim l.tail_ptr [ none ↦ some a | some t ↦ some t ];
  reclaimed = l.reclaimed;
  number_remaining = (l.number_remaining + 1) % isize_mod;
}

-- The last of the nodes, if there is one.
abbrev pub last : Cells Retire → Option Ptr
last [] = none
last ((a, _) ∷ xs) = elim (last xs) [ none ↦ some a | some t ↦ some t ]

module _ (guarded : List Ptr) where
  -- The items that are kept go in front of `acc`, so their order is reversed.
  abbrev pub kept : Cells Retire → Cells Retire → Cells Retire
  kept [] acc = acc
  kept ((a, r) ∷ xs) acc =
      let on = kept xs ((a, r) ∷ acc) in
      let off = kept xs acc in if contains guarded r.ptr then on else off

  abbrev pub nodes_after : Cells Retire → Ptr → Heap (Node Retire) → Heap (Node Retire)
  nodes_after [] still h = h
  nodes_after ((a, r) ∷ xs) still h =
      let on = nodes_after xs a (write h a (some (node r still))) in
      let off = nodes_after xs still (write h a none) in if contains guarded r.ptr then on else off

  abbrev pub scan : Cells Retire → Scan → Scan
  scan [] l = l
  scan ((a, r) ∷ xs) l =
      let on = scan xs (keep a l) in
      let off = scan xs (record l { reclaimed = l.reclaimed + 1 }) in
      if contains guarded r.ptr then on else off

  module _ {V : Type 0} where
    abbrev pub values_after : Cells Retire → Heap (Boxed V) → Heap (Boxed V)
    values_after [] vs = vs
    values_after ((a, r) ∷ xs) vs =
        let on = values_after xs vs in
        let off = values_after xs (write vs r.retirable (some dropped)) in
        if contains guarded r.ptr then on else off

    -- Each value that is not guarded is live when its turn comes.
    abbrev pub Droppable : Cells Retire → Heap (Boxed V) → Type 0
    Droppable [] vs = Unit {0}
    Droppable ((a, r) ∷ xs) vs =
        let on = Droppable xs vs in
        let off =
          (v : V) × (cell vs r.retirable ≡ some (live v))
          × Droppable xs (write vs r.retirable (some dropped)) in
        if contains guarded r.ptr then on else off

  pub kept-Seg :
      (xs acc : Cells Retire) (p : Ptr) (l : Scan) (h : Heap (Node Retire))
      → Seg h null p xs
      → Seg h null l.still_retired acc
      → ((a : Ptr) → has a xs ≡ true → has a acc ≡ false)
      → Seg (nodes_after xs l.still_retired h) null (scan xs l).still_retired (kept xs acc)
  kept-Seg [] acc p l h seg done apart = done
  kept-Seg ((a, r) ∷ xs) acc p l h (q, e, c, o, seg) done apart =
      elim (Bool-cases (contains guarded r.ptr)) [
        | inl is_held ↦
            let g : Heap (Node Retire) = write h a (some (node r l.still_retired)) in
            let seg' = frame h g null q xs (λ b i. ground (arith, o)) seg in
            let done' = frame h g null l.still_retired acc (λ b i. ground (arith, apart a)) done in
            rw is_held (
              kept-Seg xs ((a, r) ∷ acc) q (keep a l) g seg'
                (l.still_retired, refl, ground arith, ground (arith, apart a), done')
                (λ b i. ground (arith, apart b, o)))
        | inr not_held ↦
            let g : Heap (Node Retire) = write h a none in
            let seg' = frame h g null q xs (λ b i. ground (arith, o)) seg in
            let done' = frame h g null l.still_retired acc (λ b i. ground (arith, apart a)) done in
            rw not_held (kept-Seg xs acc q _ g seg' done' (λ b i. ground (arith, apart b)))
      ]

  pub scan-last :
      (xs acc : Cells Retire) (l : Scan)
      → l.tail_ptr ≡ last acc
      → (scan xs l).tail_ptr ≡ last (kept xs acc)
  scan-last [] acc l e = e
  scan-last ((a, r) ∷ xs) acc l e = elim (Bool-cases (contains guarded r.ptr)) [
    | inl is_held ↦ rw is_held (scan-last xs ((a, r) ∷ acc) (keep a l) (ground arith))
    | inr not_held ↦ rw not_held (scan-last xs acc _ e)
  ]

  pub scan-counts :
      (xs acc : Cells Retire) (l : Scan)
      → l.number_remaining ≡ length acc % isize_mod
      → ((scan xs l).number_remaining ≡ length (kept xs acc) % isize_mod)
        × ((scan xs l).reclaimed + length (kept xs acc) ≡ l.reclaimed + length acc + length xs)
  scan-counts [] acc l e = (e, omega arith)
  scan-counts ((a, r) ∷ xs) acc l e = elim (Bool-cases (contains guarded r.ptr)) [
    | inl is_held ↦
        let (n, c) = scan-counts xs ((a, r) ∷ acc) (keep a l) (omega arith) in
        rw is_held (n, omega arith)
    | inr not_held ↦
        let (n, c) = scan-counts xs acc (record l { reclaimed = l.reclaimed + 1 }) e in
        rw not_held (n, omega arith)
  ]

-- The last node with those before it.
pub last-append :
    (xs : Cells Retire) (t : Ptr)
    → last xs ≡ some t
    → (front : Cells Retire) × (r : Retire) × (xs ≡ front ++ (t, r) ∷ [])
last-append [] t e = cc
last-append ((a, r) ∷ []) t e = ([], r, ground arith)
last-append ((a, r) ∷ (b, w) ∷ xs) t e =
    let (front, u, split) = last-append ((b, w) ∷ xs) t (ground arith) in
    ((a, r) ∷ front, u, ap (◌∷◌ (a, r)) split)

pub last-none : (xs : Cells Retire) → last xs ≡ none → xs ≡ []
last-none [] e = refl
last-none ((a, r) ∷ xs) e = ground arith

pub cell-last :
    (h : Heap (Node Retire)) (end p t : Ptr) (r : Retire) (front : Cells Retire)
    → Seg h end p (front ++ (t, r) ∷ [])
    → cell h t ≡ some (node r end)
cell-last h end p t r [] (q, e, c, o, seg) = rw (← seg) c
cell-last h end p t r (x ∷ front) (q, e, c, o, seg) = cell-last h end q t r front seg

pub last-snoc : (front : Cells Retire) (t : Ptr) (r : Retire) → last (front ++ (t, r) ∷ []) ≡ some t
last-snoc [] t r = refl
last-snoc (x ∷ front) t r = rw (last-snoc front t r)
