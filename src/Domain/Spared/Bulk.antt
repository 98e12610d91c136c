-- ===== src/Domain/Spared/Bulk.antt =====
-- `bulk_reclaim` among other threads leaves a value alone that a hazard pointer keeps holding.
use atom_box.Prelude.{
  ℕ, ◌≡◌, true, false, List, ◌==◌, Bool-cases, Option-cases, inl, inr, zero, suc, ==→eq,
}
use atom_box.Machine.{
  Ptr, null, returns, Tick, Env, M, Result, ok, err, pure, ◌>>◌, ◌within◌, load, swap, store,
  compare_exchange_weak, box_drop,
}
use atom_box.Machine.Logic.{Keeps, Ensures, bind-Ensures, returns-Ensures}
use atom_box.LockFreeList.{
  at_head, at_count, at_nodes, read_node, store_next, fetch_add, push_all, push_all_loop,
}
use atom_box.HazardPointerList.{HazardPointerList}
use atom_box.World.{World}
use atom_box.Domain.{
  retired, contains, Scan, drop_in_place, get_guarded_ptrs, reclaim_loop, reclaim_unguarded,
  bulk_reclaim,
}
use atom_box.Domain.Spared.{
  IsGuarded, Spares, store_next-Ensures, read_node-Ensures, box_drop-Ensures, drop_in_place-Ensures,
  swap_head-Ensures, store_count-Ensures, fetch_add-Ensures, load_head-Ensures,
  exchange_head-Ensures,
}
use atom_box.Domain.Spared.Collect.{get_guarded_ptrs-Found}

module _ {V : Type 0} (d : ℕ) (Inv : HazardPointerList → Type 0) (haz p : Ptr) (v : V) where
  abbrev S : Tick (World V) → Type 0
  S = Spares d Inv haz p v

  abbrev G : {A : Type 0} → A → World V → Type 0
  G a = IsGuarded d Inv haz p v

  -- The round of `push_all` after its exchange.
  answered :
      (rounds : ℕ) (first last : Ptr) (n : ℕ)
      → ((seen : Ptr) (e : Env (World V)) (s : World V)
          → Keeps S e
          → IsGuarded d Inv haz p v s
          → Ensures S G (push_all_loop (retired d) rounds seen first last n e s))
      → (r : Result Ptr Ptr) (e : Env (World V)) (s : World V) → IsGuarded d Inv haz p v s
      → Keeps S e
      → Ensures S G (
          (elim r as (λ _. M (World V) Ptr) [
            | ok _ ↦ fetch_add (retired d) n >> pure first
            | err seen ↦ push_all_loop (retired d) rounds seen first last n
          ])
            e s)
  answered rounds first last n again (ok _) e s g k =
      bind-Ensures S G G (fetch_add (retired d) n e s) _ (fetch_add-Ensures d Inv haz p v e s k g n)
        (λ _ e s g k. (g, k))
  answered rounds first last n again (err seen) e s g k = again seen e s k g

  push_all_loop-Ensures :
      (rounds : ℕ) (head first last : Ptr) (n : ℕ) (e : Env (World V)) (s : World V)
      → Keeps S e
      → IsGuarded d Inv haz p v s
      → Ensures S G (push_all_loop (retired d) rounds head first last n e s)
  unfolding push_all_loop
  push_all_loop-Ensures zero head first last n e s k g = tt
  push_all_loop-Ensures (suc rounds) head first last n e s k g =
      bind-Ensures S G G (store_next (retired d) last head e s) _
        (store_next-Ensures d Inv haz p v e s k g last head)
        (λ _ e₁ s₁ g₁ k₁.
          bind-Ensures S G G (compare_exchange_weak (at_head within retired d) head first e₁ s₁) _
            (exchange_head-Ensures d Inv haz p v e₁ s₁ k₁ g₁ head first)
            (answered rounds first last n
              (λ seen e s k g. push_all_loop-Ensures rounds seen first last n e s k g)))

  unlike_held :
      (guarded : List Ptr) (r : Ptr)
      → contains guarded p ≡ true
      → contains guarded r ≡ false
      → (p == r) ≡ false
  unlike_held guarded r found not_held = elim (Bool-cases (p == r)) [
    | inl same ↦ absurd (let e = ==→eq p r same in cc)
    | inr other ↦ other
  ]

  reclaim_loop-Ensures :
      (rounds : ℕ) (guarded : List Ptr) (node_ptr : Ptr) (l : Scan) (e : Env (World V))
      (s : World V)
      → contains guarded p ≡ true
      → Keeps S e
      → IsGuarded d Inv haz p v s
      → Ensures S G (reclaim_loop d rounds guarded node_ptr l e s)
  unfolding reclaim_loop
  reclaim_loop-Ensures zero guarded node_ptr l e s found k g = tt
  reclaim_loop-Ensures (suc rounds) guarded node_ptr l e s found k g =
      elim (Bool-cases (node_ptr == null)) [
        | inl ended ↦ rw ended (g, k)
        | inr there ↦ rw there (
            bind-Ensures S (λ n s. IsGuarded d Inv haz p v s × (n.value.retirable ≡ n.value.ptr)) G
              (read_node (retired d) node_ptr e s) _
              (read_node-Ensures d Inv haz p v e s k g node_ptr)
              (λ node e₁ s₁ (g₁, paired) k₁. elim (Bool-cases (contains guarded node.value.ptr)) [
                | inl is_held ↦ rw is_held (
                    bind-Ensures S G G (store_next (retired d) node_ptr l.still_retired e₁ s₁) _
                      (store_next-Ensures d Inv haz p v e₁ s₁ k₁ g₁ node_ptr l.still_retired)
                      (λ _ e₂ s₂ g₂ k₂.
                        reclaim_loop-Ensures rounds guarded node.next _ e₂ s₂ found k₂ g₂))
                | inr not_held ↦ rw not_held (
                    bind-Ensures S G G (drop_in_place node.value.retirable e₁ s₁) _
                      (drop_in_place-Ensures d Inv haz p v e₁ s₁ k₁ g₁ node.value.retirable
                        (rw paired (unlike_held guarded node.value.ptr found not_held)))
                      (λ _ e₂ s₂ g₂ k₂.
                        bind-Ensures S G G (box_drop (at_nodes within retired d) node_ptr e₂ s₂) _
                          (box_drop-Ensures d Inv haz p v e₂ s₂ k₂ g₂ node_ptr)
                          (λ _ e₃ s₃ g₃ k₃.
                            reclaim_loop-Ensures rounds guarded node.next _ e₃ s₃ found k₃ g₃)))
              ]))
      ]

  push_all-Ensures :
      (rounds : ℕ) (first last : Ptr) (n : ℕ) (e : Env (World V)) (s : World V)
      → Keeps S e
      → IsGuarded d Inv haz p v s
      → Ensures S G (push_all (retired d) rounds first last n e s)
  unfolding push_all
  push_all-Ensures rounds first last n e s k g =
      bind-Ensures S G G (load (at_head within retired d) e s) _
        (load_head-Ensures d Inv haz p v e s k g)
        (λ head e s g k. push_all_loop-Ensures rounds head first last n e s k g)

  reclaim_unguarded-Ensures :
      (rounds : ℕ) (guarded : List Ptr) (node_ptr : Ptr) (e : Env (World V)) (s : World V)
      → contains guarded p ≡ true
      → Keeps S e
      → IsGuarded d Inv haz p v s
      → Ensures S G (reclaim_unguarded d rounds guarded node_ptr e s)
  unfolding reclaim_unguarded
  reclaim_unguarded-Ensures rounds guarded node_ptr e s found k g =
      bind-Ensures S G G (reclaim_loop d rounds guarded node_ptr _ e s) _
        (reclaim_loop-Ensures rounds guarded node_ptr _ e s found k g)
        (λ l e s g k. elim (Option-cases l.tail_ptr) [
          | inl all ↦ rw all (g, k)
          | inr (tail, some_left) ↦ rw some_left (
              bind-Ensures S G G
                (push_all (retired d) rounds l.still_retired tail l.number_remaining e s) _
                (push_all-Ensures rounds l.still_retired tail l.number_remaining e s k g)
                (λ _ e s g k. (g, k)))
        ])

  bulk_reclaim-Ensures :
      (rounds : ℕ) (e : Env (World V)) (s : World V)
      → Keeps S e
      → IsGuarded d Inv haz p v s
      → Ensures S G (bulk_reclaim d rounds e s)
  unfolding bulk_reclaim
  bulk_reclaim-Ensures rounds e s k g =
      bind-Ensures S G G (swap (at_head within retired d) null e s) _
        (swap_head-Ensures d Inv haz p v e s k g null)
        (λ head e s g k.
          bind-Ensures S G G (store (at_count within retired d) 0 e s) _
            (store_count-Ensures d Inv haz p v e s k g 0)
            (λ _ e s g k. elim (Bool-cases (head == null)) [
              | inl nothing ↦ rw nothing (g, k)
              | inr there ↦ rw there (
                  bind-Ensures S (λ ps s. IsGuarded d Inv haz p v s × (contains ps p ≡ true)) G
                    (get_guarded_ptrs d rounds e s) _
                    (get_guarded_ptrs-Found d Inv haz p v rounds e s k g)
                    (λ ps e s (g, found) k. reclaim_unguarded-Ensures rounds ps head e s found k g))
            ]))

  -- Let the other threads leave the value at `p` and the hazard pointer `haz` as they are, keep the
  -- nodes that are in the list of hazard pointers linked, keep the invariant `Inv` of that list, and
  -- retire each value under one address. If `haz` is in the list and holds `p`, and the value is
  -- live, when `bulk_reclaim` starts, then all that still holds when it returns, whatever else the
  -- other threads do between any two steps.
  pub bulk_reclaim-IsGuarded :
      (rounds n : ℕ) (e e' : Env (World V)) (s s' : World V)
      → Keeps S e
      → IsGuarded d Inv haz p v s
      → bulk_reclaim d rounds e s ≡ returns (n, e', s')
      → IsGuarded d Inv haz p v s'
  bulk_reclaim-IsGuarded rounds n e e' s s' k g run =
      returns-Ensures S G (bulk_reclaim-Ensures rounds e s k g) run
