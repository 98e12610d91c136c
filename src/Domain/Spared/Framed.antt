-- ===== src/Domain/Spared/Framed.antt =====
-- Parts of a reclamation that leave an assertion true among threads that keep it: the reading of the
-- hazard pointers, and a push to the retired list.
use atom_box.Prelude.{
  ℕ, zero, suc, ◌≡◌, refl, subst, sym, not, ◌&&◌, ◌+◌, ◌%◌, some, ◌==◌, Bool-cases, Option-cases,
  inl, inr,
}
use atom_box.Machine.{
  Ptr, null, returns, Tick, Env, M, Result, ok, err, pure, ◌>>◌, ◌>>=◌, cell, ◌within◌, meets,
  later, read, access, load, compare_exchange_weak, compare_exchange_weak-meets, fails_next,
}
use atom_box.Machine.Logic.{
  IsStable, Keeps, Ensures, atomic-Ensures, bind-Ensures, stable_meets, Keeps-later,
}
use atom_box.LockFreeList.{
  LockFreeList, at_head, store_next, fetch_add, push_all, push_all_loop, load_next, next, iter,
  isize_mod,
}
use atom_box.HazardPointerList
use atom_box.World.{World, Retire}
use atom_box.Domain.{retired, hazard_ptrs, collect_guarded, get_guarded_ptrs}

-- Reading the hazard pointers keeps whatever the other threads keep.
module _ {V : Type 0} (d : ℕ) (K : Tick (World V) → Type 0) (P : World V → Type 0)
    (stable : IsStable K P) where
  load_next-Ensures :
      (q : Ptr) (e : Env (World V)) (s : World V)
      → Keeps K e
      → P s
      → Ensures K (λ _. P) (load_next (hazard_ptrs d) q e s)
  unfolding read
  load_next-Ensures q e s k h =
      atomic-Ensures K P (λ _. P) _ e s stable
        (λ s h. elim (Option-cases (cell (s.domains d).hazard_ptrs.nodes q)) [
          | inl gone ↦ rw gone tt
          | inr (n, own) ↦ rw own h
        ])
        k h

  load-Ensures :
      (q : Ptr) (e : Env (World V)) (s : World V)
      → Keeps K e
      → P s
      → Ensures K (λ _. P) (HazardPointerList.load (hazard_ptrs d) q e s)
  unfolding HazardPointerList.load read
  load-Ensures q e s k h =
      atomic-Ensures K P (λ _. P) _ e s stable
        (λ s h. elim (Option-cases (cell (s.domains d).hazard_ptrs.nodes q)) [
          | inl gone ↦ rw gone tt
          | inr (n, own) ↦ rw own h
        ])
        k h

  collect_guarded-Ensures :
      (rounds : ℕ) (q : Ptr) (e : Env (World V)) (s : World V)
      → Keeps K e
      → P s
      → Ensures K (λ _. P) (collect_guarded d rounds q e s)
  unfolding collect_guarded next
  collect_guarded-Ensures zero q e s k h = tt
  collect_guarded-Ensures (suc rounds) q e s k h = elim (Bool-cases (q == null)) [
    | inl none_left ↦ rw none_left (h, k)
    | inr there ↦ rw there (
        bind-Ensures K (λ item s. (r : Ptr) × (item ≡ some (q, r)) × P s) (λ _. P)
          ((load_next (hazard_ptrs d) q >>= λ r. pure (some (q, r))) e s) _
          (bind-Ensures K (λ _. P) _ (load_next (hazard_ptrs d) q e s) _
            (load_next-Ensures q e s k h) (λ r e s h k. ((r, refl, h), k)))
          (λ item e₁ s₁ (r, same, h₁) k₁. rw same (
            bind-Ensures K (λ _. P) (λ _. P) (HazardPointerList.load (hazard_ptrs d) q e₁ s₁) _
              (load-Ensures q e₁ s₁ k₁ h₁)
              (λ ptr e₂ s₂ h₂ k₂.
                bind-Ensures K (λ _. P) (λ _. P) (collect_guarded d rounds r e₂ s₂) _
                  (collect_guarded-Ensures rounds r e₂ s₂ k₂ h₂) (λ _ e₃ s₃ h₃ k₃. (h₃, k₃))))))
  ]

  pub get_guarded_ptrs-Ensures :
      (rounds : ℕ) (e : Env (World V)) (s : World V)
      → Keeps K e
      → P s
      → Ensures K (λ _. P) (get_guarded_ptrs d rounds e s)
  unfolding get_guarded_ptrs iter
  get_guarded_ptrs-Ensures rounds e s k h =
      bind-Ensures K (λ _. P) (λ _. P) (load (at_head within hazard_ptrs d) e s) _
        (atomic-Ensures K P (λ _. P) (λ s. returns ((s.domains d).hazard_ptrs.head, s)) e s stable
          (λ s h. h) k h)
        (λ q e₁ s₁ h₁ k₁. collect_guarded-Ensures rounds q e₁ s₁ k₁ h₁)

-- A push to the retired list, for an assertion that does not depend on the list.
module _ {V : Type 0} (d : ℕ) (K : Tick (World V) → Type 0) (P : World V → Type 0)
    (stable : IsStable K P)
    (framed : (l : LockFreeList Retire) (s : World V) → P s → P ((retired d).put l s)) where
  abbrev G : {A : Type 0} → A → World V → Type 0
  G _ = P

  store_next-Ensures :
      (a q : Ptr) (e : Env (World V)) (s : World V)
      → Keeps K e
      → P s
      → Ensures K G (store_next (retired d) a q e s)
  unfolding access
  store_next-Ensures a q e s k h =
      atomic-Ensures K P G _ e s stable
        (λ s h. elim (Option-cases (cell (s.domains d).retired.nodes a)) [
          | inl gone ↦ rw gone tt
          | inr (n, own) ↦ rw own (framed _ s h)
        ])
        k h

  exchange_head-Ensures :
      (old new : Ptr) (e : Env (World V)) (s : World V)
      → Keeps K e
      → P s
      → Ensures K G (compare_exchange_weak (at_head within retired d) old new e s)
  exchange_head-Ensures old new e s k h =
      let t : World V = meets e s in
      let h' : P t = stable_meets K P stable e s k h in
      let k' : Keeps K (later e) = Keeps-later K e k in
      subst (Ensures K G) (sym (compare_exchange_weak-meets (at_head within retired d) old new e s))
        (elim (Bool-cases (((t.domains d).retired.head == old) && not (fails_next e))) [
          | inl done ↦ rw done (framed (record (t.domains d).retired { head = new }) t h', k')
          | inr other ↦ rw other (h', k')
        ])

  fetch_add-Ensures :
      (n : ℕ) (e : Env (World V)) (s : World V)
      → Keeps K e
      → P s
      → Ensures K G (fetch_add (retired d) n e s)
  fetch_add-Ensures n e s k h =
      atomic-Ensures K P G
        (λ s. returns (
          tt,
          (retired d).put
              (record (s.domains d).retired {
                count = ((s.domains d).retired.count + n) % isize_mod;
              })
              s,
        ))
        e s stable
        (λ s h.
          framed
            (record (s.domains d).retired { count = ((s.domains d).retired.count + n) % isize_mod })
            s h)
        k h

  -- The round of `push_all` after its exchange.
  answered :
      (rounds : ℕ) (first last : Ptr) (n : ℕ)
      → ((seen : Ptr) (e : Env (World V)) (s : World V)
          → Keeps K e
          → P s
          → Ensures K G (push_all_loop (retired d) rounds seen first last n e s))
      → (r : Result Ptr Ptr) (e : Env (World V)) (s : World V) → P s
      → Keeps K e
      → Ensures K G (
          (elim r as (λ _. M (World V) Ptr) [
            | ok _ ↦ fetch_add (retired d) n >> pure first
            | err seen ↦ push_all_loop (retired d) rounds seen first last n
          ])
            e s)
  answered rounds first last n again (ok _) e s h k =
      bind-Ensures K G G (fetch_add (retired d) n e s) _ (fetch_add-Ensures n e s k h)
        (λ _ e s h k. (h, k))
  answered rounds first last n again (err seen) e s h k = again seen e s k h

  push_all_loop-Ensures :
      (rounds : ℕ) (head first last : Ptr) (n : ℕ) (e : Env (World V)) (s : World V)
      → Keeps K e
      → P s
      → Ensures K G (push_all_loop (retired d) rounds head first last n e s)
  unfolding push_all_loop
  push_all_loop-Ensures zero head first last n e s k h = tt
  push_all_loop-Ensures (suc rounds) head first last n e s k h =
      bind-Ensures K G G (store_next (retired d) last head e s) _
        (store_next-Ensures last head e s k h)
        (λ _ e₁ s₁ h₁ k₁.
          bind-Ensures K G G (compare_exchange_weak (at_head within retired d) head first e₁ s₁) _
            (exchange_head-Ensures head first e₁ s₁ k₁ h₁)
            (answered rounds first last n
              (λ seen e s k h. push_all_loop-Ensures rounds seen first last n e s k h)))

  pub push_all-Ensures :
      (rounds : ℕ) (first last : Ptr) (n : ℕ) (e : Env (World V)) (s : World V)
      → Keeps K e
      → P s
      → Ensures K G (push_all (retired d) rounds first last n e s)
  unfolding push_all
  push_all-Ensures rounds first last n e s k h =
      bind-Ensures K G G (load (at_head within retired d) e s) _
        (atomic-Ensures K P G (λ s. returns ((s.domains d).retired.head, s)) e s stable (λ s h. h) k
          h)
        (λ head e s h k. push_all_loop-Ensures rounds head first last n e s k h)
