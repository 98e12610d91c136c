-- ===== src/Domain/Spared/Collect.antt =====
-- `get_guarded_ptrs` among other threads finds every address that a hazard pointer keeps holding.
use atom_box.Prelude.{
  ℕ, ◌≡◌, refl, subst, true, false, List, [], ◌∷◌, some, ◌==◌, if◌then◌else◌, arith, Bool-cases,
  Option-cases, inl, inr, ◌⊎◌, zero, suc, eq→==,
}
use atom_box.Machine.{Ptr, null, returns, Env, pure, cell, ◌within◌, read, ◌>>=◌, load}
use atom_box.Machine.Logic.{IsStable, Keeps, Ensures, atomic-Ensures, bind-Ensures, weaken}
use atom_box.LockFreeList
use atom_box.LockFreeList.{at_head, at_nodes, load_next, next, iter}
use atom_box.HazardPointerList
use atom_box.World.{World}
use atom_box.Domain.{hazard_ptrs, contains, collect_guarded, get_guarded_ptrs}
use atom_box.Domain.Spared.{Leads, here, behind, goes_on, IsGuarded, Spares, chain, stable}

module _ {V : Type 0} (d : ℕ) (Inv : HazardPointerList.HazardPointerList → Type 0) (haz p : Ptr)
    (v : V) where
  -- The hazard pointer lies ahead of `q`, or `C` holds.
  abbrev Onward : Ptr → HazardPointerList.HazardPointerList → Type 0
  Onward q l = Leads l.nodes q l.head × Leads l.nodes haz q

  abbrev Ahead : Type 0 → Ptr → World V → Type 0
  Ahead C q s = IsGuarded d Inv haz p v s × (C ⊎ Onward q (chain d Inv haz p v s))

  Ahead-stable : (C : Type 0) (q : Ptr) → IsStable (Spares d Inv haz p v) (Ahead C q)
  Ahead-stable C q t s k (g, inl c) = (k.guarded s g, inl c)
  Ahead-stable C q t s k (g, inr (l, m)) = (k.guarded s g, inr (k.leads s q g l m))

  module _ (C : Type 0) (q : Ptr) (e : Env (World V)) (s : World V)
      (k : Keeps (Spares d Inv haz p v) e) where
    load_next-Ahead :
        Ahead C q s
        → Ensures (Spares d Inv haz p v) (Ahead (C ⊎ (q ≡ haz))) (load_next (hazard_ptrs d) q e s)
    unfolding read
    load_next-Ahead a =
        atomic-Ensures (Spares d Inv haz p v) (Ahead C q) (Ahead (C ⊎ (q ≡ haz))) _ e s
          (Ahead-stable C q)
          (λ s a. elim (Option-cases (cell (s.domains d).hazard_ptrs.nodes q)) [
            | inl gone ↦ rw gone tt
            | inr (n, own) ↦ rw own (a.0, behind_node s n own a.1)
          ])
          k a
      where
        behind_node :
            (s : World V) (n : LockFreeList.Node HazardPointerList.Node)
            → cell (s.domains d).hazard_ptrs.nodes q ≡ some n
            → C ⊎ Onward q (s.domains d).hazard_ptrs
            → (C ⊎ (q ≡ haz)) ⊎ Onward n.next (s.domains d).hazard_ptrs
        behind_node s n own (inl c) = inl (inl c)
        behind_node s n own (inr (_, here found)) = inl (inr found)
        behind_node s n own (inr (before, behind m own' l)) =
            let same : m ≡ n = ground (arith) in
            inr (
              goes_on n own before,
              subst
                  (λ (x : LockFreeList.Node HazardPointerList.Node).
                    Leads (s.domains d).hazard_ptrs.nodes haz x.next)
                  same l,
            )

    load-Ahead :
        (rest : Ptr)
        → Ahead (C ⊎ (q ≡ haz)) rest s
        → Ensures
            (Spares d Inv haz p v)
            (λ ptr. Ahead (C ⊎ (ptr ≡ p)) rest)
            (HazardPointerList.load (hazard_ptrs d) q e s)
    unfolding HazardPointerList.load read
    load-Ahead rest a =
        atomic-Ensures (Spares d Inv haz p v) (Ahead (C ⊎ (q ≡ haz)) rest)
          (λ ptr. Ahead (C ⊎ (ptr ≡ p)) rest) _ e s (Ahead-stable (C ⊎ (q ≡ haz)) rest)
          (λ s a. elim (Option-cases (cell (s.domains d).hazard_ptrs.nodes q)) [
            | inl gone ↦ rw gone tt
            | inr (n, own) ↦ rw own (a.0, holding s n own a.0 a.1)
          ])
          k a
      where
        holding :
            (s : World V) (n : LockFreeList.Node HazardPointerList.Node)
            → cell (s.domains d).hazard_ptrs.nodes q ≡ some n
            → IsGuarded d Inv haz p v s
            → (C ⊎ (q ≡ haz)) ⊎ Onward rest (s.domains d).hazard_ptrs
            → (C ⊎ (n.value.ptr ≡ p)) ⊎ Onward rest (s.domains d).hazard_ptrs
        holding s n own g (inl (inl c)) = inl (inl c)
        holding s n own g (inl (inr same)) =
            let at_haz = rw same at own in inl (inr (ground (arith, g.own, g.holds)))
        holding s n own g (inr l) = inr l

  -- The address that a list of hazard pointers must have, unless `C` holds.
  abbrev Found : Type 0 → List Ptr → World V → Type 0
  Found C ps s = IsGuarded d Inv haz p v s × (C ⊎ (contains ps p ≡ true))

  prepended-Found :
      (C : Type 0) (ptr : Ptr) (others : List Ptr) (s : World V)
      → Found (C ⊎ (ptr ≡ p)) others s
      → Found C (if ptr == null then others else ptr ∷ others) s
  prepended-Found C ptr others s (g, inl (inl c)) = (g, inl c)
  prepended-Found C ptr others s (g, inl (inr same)) =
      let there : (ptr == null) ≡ false = ground (arith, g.alive) in
      (g, inr (rw there (ground (arith, eq→== ptr p same))))
  prepended-Found C ptr others s (g, inr there) = (g, inr (ground arith))

  ends_here : (C : Type 0) (q : Ptr) (s : World V) → (q == null) ≡ true → Ahead C q s → Found C [] s
  ends_here C q s none_left (g, inl c) = (g, inl c)
  ends_here C q s none_left (g, inr (_, here found)) = absurd (ground (arith, g.own))
  ends_here C q s none_left (g, inr (_, behind n own l)) = absurd (ground arith)

  collect_guarded-Found :
      (C : Type 0) (rounds : ℕ) (q : Ptr) (e : Env (World V)) (s : World V)
      → Keeps (Spares d Inv haz p v) e
      → Ahead C q s
      → Ensures (Spares d Inv haz p v) (Found C) (collect_guarded d rounds q e s)
  unfolding collect_guarded next
  collect_guarded-Found C zero q e s k a = tt
  collect_guarded-Found C (suc rounds) q e s k a = elim (Bool-cases (q == null)) [
    | inl none_left ↦ rw none_left (ends_here C q s none_left a, k)
    | inr there ↦ rw there (
        let S = Spares d Inv haz p v in
        bind-Ensures S (λ item s. (r : Ptr) × (item ≡ some (q, r)) × Ahead (C ⊎ (q ≡ haz)) r s)
          (Found C) ((load_next (hazard_ptrs d) q >>= λ r. pure (some (q, r))) e s) _
          (bind-Ensures S (Ahead (C ⊎ (q ≡ haz))) _ (load_next (hazard_ptrs d) q e s) _
            (load_next-Ahead C q e s k a) (λ r e s a k. ((r, refl, a), k)))
          (λ item e₁ s₁ (r, same, a₁) k₁. rw same (
            bind-Ensures S (λ ptr. Ahead (C ⊎ (ptr ≡ p)) r) (Found C)
              (HazardPointerList.load (hazard_ptrs d) q e₁ s₁) _ (load-Ahead C q e₁ s₁ k₁ r a₁)
              (λ ptr e₂ s₂ a₂ k₂.
                bind-Ensures S (Found (C ⊎ (ptr ≡ p))) (Found C) (collect_guarded d rounds r e₂ s₂)
                  _ (collect_guarded-Found (C ⊎ (ptr ≡ p)) rounds r e₂ s₂ k₂ a₂)
                  (λ others e₃ s₃ f k₃. (prepended-Found C ptr others s₃ f, k₃))))))
  ]

  -- While the hazard pointer stays in the list and keeps holding the address, every list that
  -- `get_guarded_ptrs` returns has it.
  pub get_guarded_ptrs-Found :
      (rounds : ℕ) (e : Env (World V)) (s : World V)
      → Keeps (Spares d Inv haz p v) e
      → IsGuarded d Inv haz p v s
      → Ensures
          (Spares d Inv haz p v)
          (λ ps s. IsGuarded d Inv haz p v s × (contains ps p ≡ true))
          (get_guarded_ptrs d rounds e s)
  unfolding get_guarded_ptrs iter
  get_guarded_ptrs-Found rounds e s k g =
      let S = Spares d Inv haz p v in
      bind-Ensures S (Ahead ⊥) _ (load (at_head within hazard_ptrs d) e s) _
        (atomic-Ensures S (IsGuarded d Inv haz p v) (Ahead ⊥)
          (λ s. returns ((s.domains d).hazard_ptrs.head, s)) e s (stable d Inv haz p v)
          (λ s g. (g, inr (here refl, g.listed))) k g)
        (λ q e₁ s₁ a k₁.
          weaken S (Found ⊥) (λ ps s. IsGuarded d Inv haz p v s × (contains ps p ≡ true))
            (collect_guarded d rounds q e₁ s₁) found_it
            (collect_guarded-Found ⊥ rounds q e₁ s₁ k₁ a))
    where
      found_it :
          (ps : List Ptr) (s : World V)
          → Found ⊥ ps s
          → IsGuarded d Inv haz p v s × (contains ps p ≡ true)
      found_it ps s (g, inl never) = elim never [ ]
      found_it ps s (g, inr there) = (g, there)
