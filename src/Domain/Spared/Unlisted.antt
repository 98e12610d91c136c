-- ===== src/Domain/Spared/Unlisted.antt =====
-- `bulk_reclaim` among other threads leaves a value alone that is not on the list when it takes the list,
-- such as one that is still in a box and that another thread is about to load.
use atom_box.Prelude.{
  ℕ, zero, suc, ◌≡◌, refl, subst, sym, false, List, [], ◌∷◌, ◌==◌, eq→==, ap, arith, Bool-cases,
  Option-cases, inl, inr,
}
use atom_box.Machine.{
  Ptr, null, returns, Tick, Env, ◌within◌, meets, later, atomic-meets, box_drop, store,
}
use atom_box.Machine.Logic.{IsStable, Keeps, Ensures, atomic-Ensures, bind-Ensures, returns-Ensures}
use atom_box.LockFreeList
use atom_box.LockFreeList.{
  LockFreeList, at_head, at_count, at_nodes, read_node, store_next, fetch_add, push_all,
  push_all_loop, load_next, next, iter,
}
use atom_box.LockFreeList.Chain.{Cells, node, Seg}
use atom_box.World.{World, Retire}
use atom_box.Domain.{
  retired, contains, Scan, drop_in_place, get_guarded_ptrs, reclaim_loop, reclaim_unguarded,
  bulk_reclaim,
}
use atom_box.Domain.Safety.{mentions}
use atom_box.Domain.Spared.Taken.{
  ArePaired, front, Taken, untouched, IsSpared, Respects, Holds, Holds-stable, put-Holds,
  read_node-Holds, Seg-front, first-cell, store_next-Holds, box_drop-Holds, drop_in_place-Holds,
}
use atom_box.Domain.Spared.Framed.{get_guarded_ptrs-Ensures, push_all-Ensures}

unlike_listed :
    (p a : Ptr) (r : Retire) (xs : Cells Retire) (n : LockFreeList.Node Retire)
    → n ≡ node r (front xs)
    → mentions ((a, r) ∷ xs) p ≡ false
    → r.retirable ≡ r.ptr
    → (n.value.retirable == p) ≡ false
unlike_listed p a r xs n found out same =
    let e : n.value.retirable ≡ r.retirable =
      ap (λ (m : LockFreeList.Node Retire). m.value.retirable) found in
    ground arith

module _ {V : Type 0} (d : ℕ) (p : Ptr) (ys : Cells Retire) where
  abbrev R : Tick (World V) → Type 0
  R = Respects d p ys

  abbrev G : {A : Type 0} → A → World V → Type 0
  G _ = IsSpared p

  stable : IsStable R (IsSpared p)
  stable t s k g = k.spared s g

  reclaim_loop-Ensures :
      (rounds : ℕ) (guarded : List Ptr) (xs : Cells Retire) (q : Ptr) (l : Scan) (e : Env (World V))
      (s : World V)
      → q ≡ front xs
      → ArePaired xs
      → mentions xs p ≡ false
      → Keeps R e
      → Holds d p ys xs s
      → Ensures R G (reclaim_loop d rounds guarded q l e s)
  unfolding reclaim_loop
  reclaim_loop-Ensures zero guarded xs q l e s same pairs out k h = tt
  reclaim_loop-Ensures (suc rounds) guarded [] q l e s same pairs out k h =
      rw (eq→== q null same) (h.spared, k)
  reclaim_loop-Ensures (suc rounds) guarded ((a, r) ∷ xs) q l e s same pairs out k h =
      subst (λ (x : Ptr). Ensures R G (reclaim_loop d (suc rounds) guarded x l e s)) (sym same)
        (rw there (
          bind-Ensures R (λ n s. (n ≡ node r (front xs)) × Holds d p ys ((a, r) ∷ xs) s) G
            (read_node (retired d) a e s) _ (read_node-Holds d p ys a r xs e s k h)
            (λ n e₁ s₁ (found, h₁) k₁. elim (Bool-cases (contains guarded n.value.ptr)) [
              | inl is_held ↦ rw is_held (
                  bind-Ensures R (λ _. Holds d p ys xs) G
                    (store_next (retired d) a l.still_retired e₁ s₁) _
                    (store_next-Holds d p ys a r xs e₁ s₁ k₁ h₁ l.still_retired)
                    (λ _ e₂ s₂ h₂ k₂.
                      reclaim_loop-Ensures rounds guarded xs n.next _ e₂ s₂ (next_of n found)
                        pairs.1 (ground arith) k₂ h₂))
              | inr not_held ↦ rw not_held (
                  bind-Ensures R (λ _. Holds d p ys ((a, r) ∷ xs)) G
                    (drop_in_place n.value.retirable e₁ s₁) _
                    (drop_in_place-Holds d p ys a r xs e₁ s₁ k₁ h₁ n.value.retirable
                      (unlike_listed p a r xs n found out pairs.0))
                    (λ _ e₂ s₂ h₂ k₂.
                      bind-Ensures R (λ _. Holds d p ys xs) G
                        (box_drop (at_nodes within retired d) a e₂ s₂) _
                        (box_drop-Holds d p ys a r xs e₂ s₂ k₂ h₂)
                        (λ _ e₃ s₃ h₃ k₃.
                          reclaim_loop-Ensures rounds guarded xs n.next _ e₃ s₃ (next_of n found)
                            pairs.1 (ground arith) k₃ h₃)))
            ])))
    where
      there : (a == null) ≡ false
      there = ground (arith, first-cell a r xs _ h.taken)

      next_of : (n : LockFreeList.Node Retire) → n ≡ node r (front xs) → n.next ≡ front xs
      next_of n found = ap (λ (m : LockFreeList.Node Retire). m.next) found

  reclaim_unguarded-Ensures :
      (rounds : ℕ) (guarded : List Ptr) (xs : Cells Retire) (e : Env (World V)) (s : World V)
      → ArePaired xs
      → mentions xs p ≡ false
      → Keeps R e
      → Holds d p ys xs s
      → Ensures R G (reclaim_unguarded d rounds guarded (front xs) e s)
  unfolding reclaim_unguarded
  reclaim_unguarded-Ensures rounds guarded xs e s pairs out k h =
      bind-Ensures R G G (reclaim_loop d rounds guarded (front xs) _ e s) _
        (reclaim_loop-Ensures rounds guarded xs (front xs) _ e s refl pairs out k h)
        (λ l e s g k. elim (Option-cases l.tail_ptr) [
          | inl all ↦ rw all (g, k)
          | inr (tail, some_left) ↦ rw some_left (
              bind-Ensures R G G
                (push_all (retired d) rounds l.still_retired tail l.number_remaining e s) _
                (push_all-Ensures d R (IsSpared p) stable (λ l s g. g) rounds l.still_retired tail
                  l.number_remaining e s k g)
                (λ _ e s g k. (g, k)))
        ])

  -- The thread has taken the list `xs` off in its first step.
  taken_off :
      (xs : Cells Retire) (t : World V)
      → Seg (t.domains d).retired.nodes null (t.domains d).retired.head xs
      → Taken xs (t.domains d).retired.nodes
  taken_off xs t seg =
      subst (λ (q : Ptr). Seg (t.domains d).retired.nodes null q xs) (Seg-front _ _ xs seg) seg

  store_count-Holds :
      (xs : Cells Retire) (e : Env (World V)) (s : World V)
      → Keeps R e
      → Holds d p ys xs s
      → Ensures R (λ _. Holds d p ys xs) (store (at_count within retired d) 0 e s)
  store_count-Holds xs e s k h =
      atomic-Ensures R (Holds d p ys xs) (λ _. Holds d p ys xs)
        (λ s. returns (tt, (at_count within retired d).put 0 s)) e s (Holds-stable d p ys xs)
        (λ s h.
          put-Holds d p ys xs (record (s.domains d).retired { count = 0 }) s h.spared h.rest
            h.taken)
        k h

  bulk_reclaim-Ensures :
      (rounds : ℕ) (e : Env (World V)) (s : World V)
      → let t : World V = meets e s in
        Seg (t.domains d).retired.nodes null (t.domains d).retired.head ys
        → ArePaired ys
        → mentions ys p ≡ false
        → IsSpared p t
        → Keeps R (later e)
        → Ensures R G (bulk_reclaim d rounds e s)
  unfolding bulk_reclaim
  bulk_reclaim-Ensures rounds e s seg pairs out g k =
      let t : World V = meets e s in
      let h : Holds d p ys ys ((retired d).put (record (t.domains d).retired { head = null }) t) =
        put-Holds d p ys ys _ t g untouched (taken_off ys t seg) in
      rw (atomic-meets _ e s) (
        rw (Seg-front _ _ ys seg) (
          bind-Ensures R (λ _. Holds d p ys ys) G
            (store (at_count within retired d) 0 (later e)
              ((retired d).put (record (t.domains d).retired { head = null }) t))
            _ (store_count-Holds ys (later e) _ k h)
            (λ _ e₁ s₁ h₁ k₁. elim (Bool-cases (front ys == null)) [
              | inl nothing ↦ rw nothing (h₁.spared, k₁)
              | inr there ↦ rw there (
                  bind-Ensures R (λ _. Holds d p ys ys) G (get_guarded_ptrs d rounds e₁ s₁) _
                    (get_guarded_ptrs-Ensures d R (Holds d p ys ys) (Holds-stable d p ys ys) rounds
                      e₁ s₁ k₁ h₁)
                    (λ ps e₂ s₂ h₂ k₂.
                      reclaim_unguarded-Ensures rounds ps ys e₂ s₂ pairs out k₂ h₂))
            ])))

-- Let `xs` be the retired list at the moment when `bulk_reclaim` takes it, and let each item have one
-- address for both purposes. Let the other threads not drop the value at `p`, and leave the nodes
-- alone that this thread has taken and not gone through yet: where the nodes of `xs`, from one of
-- them on, are as when they were taken, a step of another thread keeps them so. Anything else they
-- may do, such as pushing to the retired list, and changing or freeing nodes of their own. If the
-- value at `p` has not been dropped and is not on `xs`, then it has not been dropped when
-- `bulk_reclaim` returns, even if it has meanwhile been stored in a box, loaded or retired.
pub bulk_reclaim-unlisted :
    {V : Type 0} (d : ℕ) (p : Ptr) (rounds n : ℕ) (xs : Cells Retire) (e e' : Env (World V))
    (s s' : World V)
    → Seg ((meets e s).domains d).retired.nodes null ((meets e s).domains d).retired.head xs
    → ArePaired xs
    → mentions xs p ≡ false
    → IsSpared p (meets e s)
    → Keeps (Respects d p xs) (later e)
    → bulk_reclaim d rounds e s ≡ returns (n, e', s')
    → IsSpared p s'
bulk_reclaim-unlisted d p rounds n xs e e' s s' seg pairs out g k run =
    returns-Ensures (Respects d p xs) (λ _. IsSpared p)
      (bulk_reclaim-Ensures d p xs rounds e s seg pairs out g k) run
