-- ===== src/Domain/Spared/Taken.antt =====
-- The nodes that a reclamation has taken off the retired list, among threads that leave them alone.
use atom_box.Prelude.{
  ℕ, ◌≡◌, ◌≢◌, refl, subst, sym, true, false, [], ◌∷◌, none, some, ◌==◌, Option, arith,
  Option-cases, inl, inr,
}
use atom_box.Machine.{Ptr, null, Tick, Env, Heap, write, cell, ◌within◌, read, access, box_drop}
use atom_box.Machine.Logic.{IsStable, Keeps, Ensures, atomic-Ensures}
use atom_box.LockFreeList
use atom_box.LockFreeList.{LockFreeList, at_head, at_count, at_nodes, read_node, store_next}
use atom_box.LockFreeList.Chain.{Cells, node, has, Seg, frame}
use atom_box.World.{World, live, dropped, Retire}
use atom_box.Domain.{retired, drop_in_place}

-- Each item has one address for both purposes.
abbrev pub ArePaired : Cells Retire → Type 0
ArePaired [] = Unit {0}
ArePaired ((_, r) ∷ xs) = (r.retirable ≡ r.ptr) × ArePaired xs

abbrev pub front : Cells Retire → Ptr
front [] = null
front ((a, _) ∷ xs) = a

pub Seg-front :
    (h : Heap (LockFreeList.Node Retire)) (q : Ptr) (xs : Cells Retire)
    → Seg h null q xs
    → q ≡ front xs
Seg-front h q [] s = s
Seg-front h q ((a, r) ∷ xs) (_, e, _, _, _) = e

-- What may be left of the list `ys` that a thread has taken off, once it has gone through its front.
pub data Rest (ys : Cells Retire) : Cells Retire → Type 0 where
  untouched : Rest ys ys
  behind : {a : Ptr} {r : Retire} {xs : Cells Retire} → Rest ys ((a, r) ∷ xs) → Rest ys xs

pub has-Rest : (ys xs : Cells Retire) (a : Ptr) → Rest ys xs → has a xs ≡ true → has a ys ≡ true
has-Rest ys xs a untouched i = i
has-Rest ys xs a (behind {a = b} {r = r} before) i =
    has-Rest ys ((b, r) ∷ xs) a before (ground arith)

-- The items `xs` are in the nodes that they were in.
abbrev pub Taken : Cells Retire → Heap (LockFreeList.Node Retire) → Type 0
Taken xs h = Seg h null (front xs) xs

-- The first node taken.
pub first-cell :
    (a : Ptr) (r : Retire) (xs : Cells Retire) (h : Heap (LockFreeList.Node Retire))
    → Taken ((a, r) ∷ xs) h
    → cell h a ≡ some (node r (front xs))
first-cell a r xs h (q, _, own, _, rest) = rw (← Seg-front h q xs rest) own

-- It is changed, or ends.
Taken-write :
    (a : Ptr) (c : Option (LockFreeList.Node Retire)) (r : Retire) (xs : Cells Retire)
    (h : Heap (LockFreeList.Node Retire))
    → Taken ((a, r) ∷ xs) h
    → Taken xs (write h a c)
Taken-write a c r xs h (q, _, own, out, rest) =
    frame h _ null (front xs) xs (λ b i. ground arith)
      (subst (λ (x : Ptr). Seg h null x xs) (Seg-front h q xs rest) rest)

-- The value at `p` has not been dropped.
abbrev pub IsSpared : {V : Type 0} → Ptr → World V → Type 0
IsSpared p s = s.values p ≢ some dropped

module _ {V : Type 0} (d : ℕ) (p : Ptr) (ys : Cells Retire) where
  -- Other threads leave the nodes alone that this one has taken off with the items `ys` and has not gone
  -- through yet, and do not drop the value.
  pub record Respects (t : Tick (World V)) : Type 0 where
    pub taken :
        (xs : Cells Retire) (s : World V)
        → Rest ys xs
        → Taken xs (s.domains d).retired.nodes
        → Taken xs ((t.others s).domains d).retired.nodes
    pub spared : (s : World V) → IsSpared p s → IsSpared p (t.others s)

  pub record Holds (xs : Cells Retire) (s : World V) : Type 0 where
    pub spared : IsSpared p s
    pub rest : Rest ys xs
    pub taken : Taken xs (s.domains d).retired.nodes

  pub Holds-stable : (xs : Cells Retire) → IsStable Respects (Holds xs)
  Holds-stable xs t s k h = record {
    spared = k.spared s h.spared;
    rest = h.rest;
    taken = k.taken xs s h.rest h.taken;
  }

  pub put-Holds :
      (xs : Cells Retire) (l : LockFreeList Retire) (s : World V)
      → IsSpared p s
      → Rest ys xs
      → Taken xs l.nodes
      → Holds xs ((retired d).put l s)
  put-Holds xs l s g z w = record {
    spared = g;
    rest = z;
    taken = subst (λ (m : LockFreeList Retire). Taken xs m.nodes) (sym ((retired d).get-put l s)) w;
  }

  module _ (a : Ptr) (r : Retire) (xs : Cells Retire) (e : Env (World V)) (s : World V)
      (k : Keeps Respects e) (h : Holds ((a, r) ∷ xs) s) where
    pub read_node-Holds :
        Ensures Respects
          (λ n s. (n ≡ node r (front xs)) × Holds ((a, r) ∷ xs) s)
          (read_node (retired d) a e s)
    unfolding read
    read_node-Holds =
        atomic-Ensures Respects (Holds ((a, r) ∷ xs)) _ _ e s (Holds-stable _)
          (λ s h. rw (first-cell a r xs _ h.taken) (refl, h)) k h

    pub store_next-Holds :
        (q : Ptr) → Ensures Respects (λ _. Holds xs) (store_next (retired d) a q e s)
    unfolding access
    store_next-Holds q =
        atomic-Ensures Respects (Holds ((a, r) ∷ xs)) (λ _. Holds xs) _ e s (Holds-stable _)
          (λ s h.
            rw (first-cell a r xs _ h.taken)
              (put-Holds xs _ s h.spared (behind h.rest) (Taken-write a _ r xs _ h.taken)))
          k h

    pub box_drop-Holds :
        Ensures Respects (λ _. Holds xs) (box_drop (at_nodes within retired d) a e s)
    unfolding box_drop
    box_drop-Holds =
        atomic-Ensures Respects (Holds ((a, r) ∷ xs)) (λ _. Holds xs) _ e s (Holds-stable _)
          (λ s h.
            rw (first-cell a r xs _ h.taken)
              (put-Holds xs _ s h.spared (behind h.rest) (Taken-write a none r xs _ h.taken)))
          k h

    pub drop_in_place-Holds :
        (q : Ptr)
        → (q == p) ≡ false
        → Ensures Respects (λ _. Holds ((a, r) ∷ xs)) (drop_in_place q e s)
    unfolding drop_in_place
    drop_in_place-Holds q other =
        atomic-Ensures Respects (Holds ((a, r) ∷ xs)) (λ _. Holds ((a, r) ∷ xs)) _ e s
          (Holds-stable _)
          (λ s h. elim (Option-cases (cell s.values q)) [
            | inl gone ↦ rw gone tt
            | inr (dropped, own) ↦ rw own tt
            | inr (live v, own) ↦ rw own (record {
              spared = λ same. h.spared (ground arith);
              rest = h.rest;
              taken = h.taken;
            })
          ])
          k h
