-- ===== src/Domain/Ending.antt =====
-- The drop of a domain: its values end, or a guard is left over.
use atom_box.Prelude.{
  ℕ, ◌<◌, ◌≡◌, refl, ap, ◌∙◌, true, false, ◌&&◌, [], ◌∷◌, some, none, Option, ◌==◌, if◌then◌else◌,
  arith, length, eq→==,
}
use atom_box.Machine.{Ptr, null, returns, panics, Heap}
use atom_box.LockFreeList
use atom_box.LockFreeList.{drop_loop}
use atom_box.LockFreeList.Chain.{Cells, has, Seg}
use atom_box.LockFreeList.Release.{drop-null, drop_lem}
use atom_box.HazardPointerList
use atom_box.World.{World, Retire, Boxed, dropped}
use atom_box.Domain
use atom_box.Domain.{retired, hazard_ptrs, contains, bulk_reclaim}
use atom_box.Domain.Guarded.{held}
use atom_box.Domain.Safety.{mentions, IsDomain, bulk_reclaim-Reclaims}

nothing_mentioned :
    (h : Heap (LockFreeList.Node Retire)) (q : Ptr) (left : Cells Retire)
    → Seg h null q left
    → ((p : Ptr) → mentions left p ≡ false)
    → q ≡ null
nothing_mentioned h q [] seg none_left = seg
nothing_mentioned h q ((a, r) ∷ left) seg none_left =
    absurd (ground (arith, none_left r.ptr, eq→== r.ptr r.ptr refl))

something_mentioned :
    (h : Heap (LockFreeList.Node Retire)) (q : Ptr) (left : Cells Retire) (p : Ptr)
    → Seg h null q left
    → mentions left p ≡ true
    → (q == null) ≡ false
something_mentioned h q [] p seg there = cc
something_mentioned h q ((a, r) ∷ left) p (k, e, c, o, seg) there = ground (arith, c, e)

module _ {V : Type 0} (d rounds : ℕ) (s : World V) (xs : Cells Retire)
    (hs : Cells HazardPointerList.Node) (inv : IsDomain d xs hs s) (enough : length xs < rounds)
    (enough' : length hs < rounds) where
  -- If no hazard pointer holds a retired value, the drop of the domain, alone and with rounds for
  -- all items and hazard pointers, ends every retired value and no other, gives back every hazard
  -- pointer, and returns.
  pub drop-returns :
      ((p : Ptr) → (mentions xs p && contains (held hs) p) ≡ false)
      → (s' : World V) × (Domain.drop d rounds [] s ≡ returns (tt, [], s'))
        × ((p : Ptr) → s'.values p ≡ (if mentions xs p then some dropped else s.values p))
        × ((a : Ptr) → has a hs ≡ true → (s'.domains d).hazard_ptrs.nodes a ≡ none)
  unfolding Domain.drop
  drop-returns unheld =
      let (n, s₁, run, r) = bulk_reclaim-Reclaims d rounds s xs hs inv enough enough' in
      let empty : (s₁.domains d).retired.head ≡ null =
        nothing_mentioned _ _ r.left r.domain.items (λ p. r.waiting p ∙ unheld p) in
      let gone : ((s₁.domains d).retired.head == null) ≡ true = ground (arith, empty) in
      let (s₂, run', freed, same) =
        drop_lem (hazard_ptrs d) (λ (w : World V). w.values) (λ l w. refl) rounds s₁ hs
          r.domain.hazards enough' in
      (
        s₂,
        rw run (rw gone (rw (drop-null (retired d) rounds s₁ empty (omega arith)) run')),
        λ p. ap (λ (h : Ptr → Option (Boxed V)). h p) same ∙ r.values p ∙ ground (arith, unheld p),
        λ a i. freed a ∙ rw i refl,
      )

  -- If a hazard pointer holds a retired value, the drop of the domain, alone and with rounds for
  -- all items and hazard pointers, panics at its assertion.
  pub drop-panics :
      (p : Ptr)
      → (mentions xs p && contains (held hs) p) ≡ true
      → Domain.drop d rounds [] s ≡ panics
  unfolding Domain.drop
  drop-panics p is_held =
      let (n, s₁, run, r) = bulk_reclaim-Reclaims d rounds s xs hs inv enough enough' in
      let there : ((s₁.domains d).retired.head == null) ≡ false =
        something_mentioned _ _ r.left p r.domain.items (r.waiting p ∙ is_held) in
      rw run (rw there refl)
