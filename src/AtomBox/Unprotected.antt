-- ===== src/AtomBox/Unprotected.antt =====
-- The guard that a failed compare-exchange returns has no hazard pointer: what a later `store` by
-- another thread makes of the value behind it.
use atom_box.Prelude.{
  ℕ, suc, ◌<◌, ◌≡◌, ap, true, false, [], some, none, Option, ◌==◌, arith, length, Bool-cases,
  Option-cases, inl, inr, ◌∙◌, sym,
}
use atom_box.Machine.{
  Ptr, Env, fault, returns, err, bind-returns, cell, write, is_free, access, ◌within◌,
}
use atom_box.LockFreeList
use atom_box.LockFreeList.{at_nodes}
use atom_box.LockFreeList.Chain.{Cells}
use atom_box.HazardPointerList
use atom_box.HazardPointerList.{set_node_available, release}
use atom_box.ReclaimStrategy.{eager}
use atom_box.World.{World, live, Retire}
use atom_box.Domain.{contains, hazard_ptrs, reset, release_hazard_ptr}
use atom_box.Domain.Guarded.{held}
use atom_box.Domain.Safety.{mentions, IsDomain}
use atom_box.AtomBox
use atom_box.AtomBox.{StoreGuard, LoadGuard, store, deref, drop_load_guard}
use atom_box.AtomBox.Exchange.{bare_guard, allocated, compare_exchange_lem}
use atom_box.AtomBox.Replace.{deref-live, store_lem}

module _ {V : Type 0} where
  access-boxes :
      (d : ℕ) (p : Ptr)
      (f : LockFreeList.Node HazardPointerList.Node
        → Unit {0} × LockFreeList.Node HazardPointerList.Node)
      (s s' : World V) (e : Env (World V))
      → access (at_nodes within hazard_ptrs d) p f [] s ≡ returns (tt, e, s')
      → (e ≡ []) × (s'.boxes ≡ s.boxes)
  unfolding access
  access-boxes d p f s s' e h = elim (Option-cases (cell (s.domains d).hazard_ptrs.nodes p)) [
    | inl gone ↦ absurd (ground arith)
    | inr (n, own) ↦
        let h' = rw own at h in
        let moved : s'
            ≡ (at_nodes within hazard_ptrs d).put
                (write (s.domains d).hazard_ptrs.nodes p (some (f n).1)) s =
          ground arith in
        (ground arith, ap (λ (w : World V). w.boxes) moved)
  ]

  drop_load_guard-boxes :
      (g : LoadGuard) (s s' : World V) (e : Env (World V))
      → drop_load_guard g [] s ≡ returns (tt, e, s')
      → s'.boxes ≡ s.boxes
  unfolding drop_load_guard release_hazard_ptr reset HazardPointerList.store set_node_available
      HazardPointerList.reset release
  drop_load_guard-boxes g s s' e h = elim (Option-cases g.haz_ptr) [
    | inl bare ↦
        let h' = rw bare at h in
        let same : s' ≡ s = ground arith in ap (λ (w : World V). w.boxes) same
    | inr (haz, own) ↦
        let h' = rw own at h in
        let (_, e₁, s₁, first, h₁) = bind-returns (reset g.domain haz [] s) _ h' in
        let (none₁, same₁) = access-boxes g.domain haz _ s s₁ e₁ first in
        let h₂ = rw none₁ at h₁ in
        let (_, e₂, s₂, second, h₃) =
          bind-returns (HazardPointerList.reset (hazard_ptrs g.domain) haz [] s₁) _ h₂ in
        let (none₂, same₂) = access-boxes g.domain haz _ s₁ s₂ e₂ second in
        let h₄ = rw none₂ at h₃ in
        let (_, same₃) = access-boxes g.domain haz _ s₂ s' e h₄ in same₃ ∙ same₂ ∙ same₁
  ]

module _ {V : Type 0} (b : ℕ) (s s' : World V) (fresh : Ptr) (v : V) (g guard : LoadGuard)
    (free : is_free s.values fresh ≡ true)
    (failed : AtomBox.compare_exchange b fresh g v [] s ≡ returns (err guard, [], s')) where
  err-bare_guard : guard ≡ bare_guard (s'.boxes b).ptr (s'.boxes b).domain
  err-bare_guard =
      let h = sym (compare_exchange_lem b s fresh v g free) ∙ failed in
      elim (Bool-cases ((s.boxes b).ptr == g.ptr)) [
        | inl same ↦
            let h' = rw same at h in
            let (_, e₁, s₁, dropped, h₁) = bind-returns (drop_load_guard g [] _) _ h' in
            absurd (ground arith)
        | inr other ↦
            let h' = rw other at h in
            let (_, e₁, s₁, dropped, h₁) =
              bind-returns (drop_load_guard g [] (allocated b s fresh v)) _ h' in
            let kept = drop_load_guard-boxes g (allocated b s fresh v) s₁ e₁ dropped in
            let ended : s₁ ≡ s' = ground arith in
            let same : s'.boxes ≡ s.boxes = sym (ap (λ (w : World V). w.boxes) ended) ∙ kept in
            rw same (ground arith)
      ]

  -- When `compare_exchange` fails, without interference, another thread may then store in the box.
  -- If no hazard pointer holds the address of the box's value, which is live and not retired, and
  -- its domain is eager, that store, run alone with enough rounds, drops the value behind the guard
  -- just returned, which has no hazard pointer of its own: a read through the guard gives the value
  -- before the store, and is a use of a dropped value after it.
  pub compare_exchange-use_after_drop :
      (rounds : ℕ) (now : Option ℕ) (fresh' node : Ptr) (w old : V) (xs : Cells Retire)
      (hs : Cells HazardPointerList.Node)
      → (s'.domains (s'.boxes b).domain).reclaim_strategy ≡ eager
      → IsDomain (s'.boxes b).domain xs hs s'
      → cell s'.values (s'.boxes b).ptr ≡ some (live old)
      → mentions xs (s'.boxes b).ptr ≡ false
      → is_free s'.values fresh' ≡ true
      → is_free (s'.domains (s'.boxes b).domain).retired.nodes node ≡ true
      → length xs < rounds
      → length hs < rounds
      → contains (held hs) (s'.boxes b).ptr ≡ false
      → (guard.haz_ptr ≡ none)
        × (deref guard.ptr [] s' ≡ returns (old, [], s'))
        × (s'' : World V) × (store b (suc rounds) now fresh' node w [] s' ≡ returns (tt, [], s''))
        × (deref guard.ptr [] s'' ≡ fault)
  compare_exchange-use_after_drop rounds now fresh' node w old xs hs e inv alive once free₂ free₃ n
        m unheld =
      let (s'', run, _, _, ends) =
        store_lem b rounds now fresh' node w old s' xs hs e inv alive once free₂ free₃ n m in
      (
        ap (λ (x : LoadGuard). x.haz_ptr) err-bare_guard,
        rw err-bare_guard (deref-live s' (s'.boxes b).ptr old alive),
        s'',
        run,
        rw err-bare_guard (rw unheld at ends),
      )
