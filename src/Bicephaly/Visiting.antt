-- ===== src/Bicephaly/Visiting.antt =====
-- Iteration over the nodes of a pool, and its drop.
use atom_box.Prelude.{
  ℕ, zero, suc, ◌<◌, ◌≡◌, refl, ap, sym, subst, ◌∙◌, false, List, [], ◌∷◌, none, some, ◌==◌,
  if◌then◌else◌, arith, length, ==→eq,
}
use atom_box.Machine.{
  Ptr, null, returns, starved, M, pure, stop, ◌>>=◌, Heap, write, Lens, box_drop, read,
}
use atom_box.Bicephaly.{Node, Bicephaly, iter, next, drop_loop, drop}
use atom_box.Bicephaly.Pool.{member, AreDistinct, Chain, Chain-write, IsPool}

abbrev use_link : {T : Type 0} → Node T → Ptr
use_link n = n.next_in_use

abbrev without : {T : Type 0} → Heap (Node T) → List Ptr → Heap (Node T)
without h [] = h
without h (a ∷ xs) = without (write h a none) xs

without_lem :
    {T : Type 0} (h : Heap (Node T)) (xs : List Ptr) (a : Ptr)
    → without h xs a ≡ (if member xs a then none else h a)
without_lem h [] a = refl
without_lem h (b ∷ xs) a = ground (arith, without_lem (write h b none) xs a, ==→eq b a)

module _ {S T : Type 0} (self : Lens S (Bicephaly T)) where
  -- What a `for` loop over the list meets.
  abbrev visit : ℕ → Ptr → M S (List Ptr)
  visit zero p = stop starved
  visit (suc rounds) p = do
    item ← next self p
    elim item [ none ↦ pure [] | some (a, rest) ↦ do others ← visit rounds rest; pure (a ∷ others) ]

  abbrev pub visit_all : ℕ → M S (List Ptr)
  visit_all rounds = do p ← iter self; visit rounds p

  visit-chain :
      (rounds : ℕ) (p : Ptr) (s : S) (xs : List Ptr)
      → Chain use_link (self.get s).nodes p xs
      → length xs < rounds
      → visit rounds p [] s ≡ returns (xs, [], s)
  unfolding next read
  visit-chain zero p s xs chain enough = absurd (omega arith)
  visit-chain (suc rounds) p s [] chain enough = ground arith
  visit-chain (suc rounds) p s (a ∷ xs) (n, e, own, chain) enough =
      ground (arith, visit-chain rounds n.next_in_use s xs chain)

  drop_loop-without :
      (rounds : ℕ) (p : Ptr) (s : S) (xs : List Ptr)
      → Chain use_link (self.get s).nodes p xs
      → AreDistinct xs
      → length xs < rounds
      → (s' : S) × (drop_loop self rounds p [] s ≡ returns (tt, [], s'))
        × ((self.get s').nodes ≡ without (self.get s).nodes xs)
  unfolding drop_loop box_drop
  drop_loop-without zero p s xs chain once enough = absurd (omega arith)
  drop_loop-without (suc rounds) p s [] chain once enough = (s, ground arith, refl)
  drop_loop-without (suc rounds) p s (a ∷ xs) (n, e, own, chain) once enough =
      let l = self.get s in
      let l' : Bicephaly T = record l { nodes = write l.nodes a none } in
      let chain' : Chain use_link (self.get (self.put l' s)).nodes n.next_in_use xs =
        rw (self.get-put l' s)
          (Chain-write use_link l.nodes a n.next_in_use none xs once.0 chain) in
      let there : (a == null) ≡ false = ground (arith, own) in
      let found : l.nodes a ≡ some n = ground (arith, own, there) in
      let (s', run, empty) =
        drop_loop-without rounds n.next_in_use (self.put l' s) xs chain' once.1 (omega arith) in
      (
        s',
        subst (λ x. drop_loop self (suc rounds) x [] s ≡ returns (tt, [], s')) (sym e)
            (rw there (rw found run)),
        empty ∙ ap (λ (k : Bicephaly T). without k.nodes xs) (self.get-put l' s),
      )

  -- A thread that runs alone, with more rounds than the pool has nodes: iteration meets every node of
  -- the pool once, whether it is available or not, from the newest on and changes nothing, and the
  -- drop frees each of these nodes, and no other, without a fault.
  pub drop-visit_all :
      (rounds : ℕ) (s : S) (all free : List Ptr)
      → IsPool (self.get s) all free
      → length all < rounds
      → (visit_all rounds [] s ≡ returns (all, [], s))
        × (s' : S) × (drop self rounds [] s ≡ returns (tt, [], s'))
        × ((a : Ptr)
            → (self.get s').nodes a ≡ (if member all a then none else (self.get s).nodes a))
  unfolding iter drop
  drop-visit_all rounds s all free pool enough =
      let (s', run, empty) =
        drop_loop-without rounds (self.get s).in_use_head s all pool.chain pool.distinct enough in
      (
        visit-chain rounds (self.get s).in_use_head s all pool.chain enough,
        s',
        run,
        λ a. rw empty (without_lem (self.get s).nodes all a),
      )
