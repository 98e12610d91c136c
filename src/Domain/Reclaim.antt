-- ===== src/Domain/Reclaim.antt =====
-- `reclaim_unguarded` of a thread that runs alone.
use atom_box.Prelude.{
  ℕ, zero, suc, ◌+◌, ◌<◌, ◌≡◌, ◌≢◌, refl, ◌∙◌, true, false, List, [], ◌∷◌, none, some, ◌==◌, arith,
  length, Bool-cases, inl, inr,
}
use atom_box.Machine.{Ptr, null, Heap, ◌within◌, write, cell, returns, access, read, box_drop}
use atom_box.LockFreeList.{Node, at_nodes, read_node, store_next}
use atom_box.LockFreeList.Chain.{Cells, node, Seg, frame}
use atom_box.World.{update_self, World, Boxed, live, dropped, Retire}
use atom_box.Domain.{contains, Scan, retired, reclaim_loop, drop_in_place}
use atom_box.Domain.Kept.{keep, nodes_after, scan, values_after, Droppable}

module _ {V : Type 0} (d : ℕ) (guarded : List Ptr) (s : World V) where
  -- The memory with other nodes in the retired list and other values.
  unfoldable pub having : Heap (Node Retire) → Heap (Boxed V) → World V
  having h vs = (at_nodes within retired d).put h (record s { values = vs })

  -- The domain `d` of that memory, and what is as before.
  pub having-domain :
      (h : Heap (Node Retire)) (vs : Heap (Boxed V))
      → (having h vs).domains d
        ≡ record (s.domains d) { retired = record (s.domains d).retired { nodes = h } }
  unfolding having
  having-domain h vs = update_self s.domains d _

  pub having-elsewhere :
      (h : Heap (Node Retire)) (vs : Heap (Boxed V)) (e : ℕ)
      → e ≢ d
      → (having h vs).domains e ≡ s.domains e
  unfolding having
  having-elsewhere h vs e ne = ground arith

  pub having-values :
      (h : Heap (Node Retire)) (vs : Heap (Boxed V))
      → ((having h vs).values ≡ vs) × ((having h vs).boxes ≡ s.boxes)
  unfolding having
  having-values h vs = (refl, refl)

  having-nodes :
      (h : Heap (Node Retire)) (vs : Heap (Boxed V))
      → (at_nodes within retired d).get (having h vs) ≡ h
  unfolding having
  having-nodes h vs = (at_nodes within retired d).get-put h (record s { values = vs })

  having-having :
      (h g : Heap (Node Retire)) (vs : Heap (Boxed V))
      → (at_nodes within retired d).put h (having g vs) ≡ having h vs
  unfolding having
  having-having h g vs = (at_nodes within retired d).put-put h g (record s { values = vs })

  module _ (h : Heap (Node Retire)) (vs : Heap (Boxed V)) where
    read-having :
        (a : Ptr) (n : Node Retire)
        → cell h a ≡ some n
        → read_node (retired d) a [] (having h vs) ≡ returns (n, [], having h vs)
    unfolding read
    read-having a n own = rw (having-nodes h vs, own)

    store-having :
        (a p : Ptr) (n : Node Retire)
        → cell h a ≡ some n
        → store_next (retired d) a p [] (having h vs)
          ≡ returns (tt, [], having (write h a (some (record n { next = p }))) vs)
    unfolding access
    store-having a p n own =
        rw (having-nodes h vs, own) (rw (having-having _ h vs) (rw (having-nodes h vs)))

    free-having :
        (a : Ptr) (n : Node Retire)
        → cell h a ≡ some n
        → box_drop (at_nodes within retired d) a [] (having h vs)
          ≡ returns (n, [], having (write h a none) vs)
    unfolding box_drop
    free-having a n own =
        rw (having-nodes h vs, own) (rw (having-having _ h vs) (rw (having-nodes h vs)))

    drop-having :
        (p : Ptr) (v : V)
        → cell vs p ≡ some (live v)
        → drop_in_place p [] (having h vs) ≡ returns (tt, [], having h (write vs p (some dropped)))
    unfolding drop_in_place having
    drop-having p v alive = rw alive

  module _ (rounds : ℕ) (a q : Ptr) (r : Retire) (l : Scan) (h : Heap (Node Retire))
      (vs : Heap (Boxed V)) (own : cell h a ≡ some (node r q)) where
    there : (a == null) ≡ false
    there = ground arith

    step-kept :
        contains guarded r.ptr ≡ true
        → reclaim_loop d (suc rounds) guarded a l [] (having h vs)
          ≡ reclaim_loop d rounds guarded q
              (keep a l)
              []
              (having (write h a (some (node r l.still_retired))) vs)
    unfolding reclaim_loop
    step-kept is_held = rw there (
        rw (read-having h vs a (node r q) own)
          (rw is_held (rw (store-having h vs a l.still_retired (node r q) own))))

    step-dropped :
        (v : V)
        → contains guarded r.ptr ≡ false
        → cell vs r.retirable ≡ some (live v)
        → reclaim_loop d (suc rounds) guarded a l [] (having h vs)
          ≡ reclaim_loop d rounds guarded q
              (record l { reclaimed = l.reclaimed + 1 })
              []
              (having (write h a none) (write vs r.retirable (some dropped)))
    unfolding reclaim_loop
    step-dropped v not_held alive = rw there (
        rw (read-having h vs a (node r q) own) (
          rw not_held
            (rw (drop-having h vs r.retirable v alive) (rw (free-having h _ a (node r q) own)))))

  -- The loop makes one pass over the items `xs` and answers with its locals.
  pub reclaim_loop-scan :
      (rounds : ℕ) (p : Ptr) (xs : Cells Retire) (l : Scan) (h : Heap (Node Retire))
      (vs : Heap (Boxed V))
      → Seg h null p xs
      → Droppable guarded xs vs
      → length xs < rounds
      → reclaim_loop d rounds guarded p l [] (having h vs)
        ≡ returns (
          scan guarded xs l,
          [],
          having (nodes_after guarded xs l.still_retired h) (values_after guarded xs vs),
        )
  reclaim_loop-scan zero p xs l h vs seg drops enough = absurd (omega arith)
  reclaim_loop-scan (suc rounds) p [] l h vs seg drops enough = unfold reclaim_loop in rw seg
  reclaim_loop-scan (suc rounds) p ((a, r) ∷ xs) l h vs (q, e, c, o, seg) drops enough =
      elim (Bool-cases (contains guarded r.ptr)) [
        | inl is_held ↦
            let seg' =
              frame h (write h a (some (node r l.still_retired))) null q xs
                (λ b i. ground (arith, o)) seg in
            rw e (
              step-kept rounds a q r l h vs c is_held
              ∙ reclaim_loop-scan rounds q xs (keep a l) _ vs seg' (rw is_held at drops)
                  (omega arith)
              ∙ rw is_held)
        | inr not_held ↦
            let (v, alive, drops') = (rw not_held at drops) in
            let seg' = frame h (write h a none) null q xs (λ b i. ground (arith, o)) seg in
            rw e (
              step-dropped rounds a q r l h vs c v not_held alive
              ∙ reclaim_loop-scan rounds q xs _ _ _ seg' drops' (omega arith)
              ∙ rw not_held)
      ]
