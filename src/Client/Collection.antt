-- ===== src/Client/Collection.antt =====
-- `reclaim` of a program: which retired values it drops.
use atom_box.Prelude.{
  ℕ, suc, ◌<◌, ◌≡◌, ◌≢◌, ◌⊎◌, ◌==◌, ◌∙◌, refl, false, true, some, arith, Bool-cases, inl, inr,
  subst,
}
use atom_box.Machine.{Ptr, null, returns}
use atom_box.LockFreeList.Chain.{Cells, Seg}
use atom_box.LockFreeList.Entry.{entry}
use atom_box.World.{Retire, dropped}
use atom_box.Domain.{contains}
use atom_box.Domain.Guarded.{held}
use atom_box.Domain.Safety.{mentions, bulk_reclaim-Reclaims}
use atom_box.Client.{Client, Reader, hazard_held, Reach, perform, reclaim}
use atom_box.Client.Sound.{IsSound, active, entry-held, held-entry}
use atom_box.Client.Safety.{Reach-IsSound}

-- The addresses on the retired list of the domain.
abbrev pub Retired : {V : Type 0} → ℕ → Client V → Cells Retire → Type 0
Retired d c xs = Seg (c.world.domains d).retired.nodes null (c.world.domains d).retired.head xs

-- A load guard or a load under way has the hazard pointer `a`, which holds the address `p`.
abbrev pub Protected : {V : Type 0} → Client V → Ptr → Ptr → Type 0
Protected c a p =
    (c.loads a ≡ some p)
    ⊎ ((r : Reader) × (c.reading a ≡ some r) × (hazard_held r ≡ p) × ((p == null) ≡ false))

-- From `c` to `c'` the retired values are dropped that no hazard pointer of a guard or load protects, and no others.
pub record Collects {V : Type 0} (d : ℕ) (c c' : Client V) : Type 0 where
  pub before : Cells Retire
  pub before_retired : Retired d c before
  pub after : Cells Retire
  pub after_retired : Retired d c' after
  pub guarded :
      (a p : Ptr)
      → Protected c a p
      → (mentions after p ≡ mentions before p) × (c'.world.values p ≡ c.world.values p)
  pub unguarded :
      (p : Ptr)
      → mentions before p ≡ true
      → ((a : Ptr) → c.loads a ≢ some p)
      → ((a : Ptr) (r : Reader) → c.reading a ≡ some r → hazard_held r ≢ p)
      → (mentions after p ≡ false) × (c'.world.values p ≡ some dropped)

module _ {V : Type 0} (d n rounds time : ℕ) (c : Client V) (h : Reach d n c)
    (enough : n < rounds) where
  abbrev sound : IsSound d n c
  sound = Reach-IsSound d n c h

  guard-contains : (a p : Ptr) → Protected c a p → contains (held sound.hazards) p ≡ true
  guard-contains a p (inl i) =
      let (e, alive) = sound.loaded a p i in entry-held sound.hazards a (active p) e (ground arith)
  guard-contains a p (inr (r, i, holds, there)) =
      let e : entry sound.hazards a ≡ some (active p) = rw (← holds) (sound.under_way a r i).0 in
      entry-held sound.hazards a (active p) e there

  no_guard-contains :
      (p : Ptr)
      → ((a : Ptr) → c.loads a ≢ some p)
      → ((a : Ptr) (r : Reader) → c.reading a ≡ some r → hazard_held r ≢ p)
      → contains (held sound.hazards) p ≡ false
  no_guard-contains p out unread = elim (Bool-cases (contains (held sound.hazards) p)) [
    | inl is_held ↦
        let (a, m, _, e, there, same) =
          held-entry (c.world.domains d).hazard_ptrs.nodes _ p sound.hazards sound.domain.hazards
            is_held in
        absurd (refuted a m.ptr same (sound.accounted a m e there))
    | inr free ↦ free
  ]
    where
      refuted :
          (a q : Ptr)
          → q ≡ p
          → (c.loads a ≡ some q) ⊎ ((r : Reader) × (c.reading a ≡ some r) × (hazard_held r ≡ q))
          → ⊥
      refuted a q same (inl i) = out a (subst (λ (x : Ptr). c.loads a ≡ some x) same i)
      refuted a q same (inr (r, i, e)) = unread a r i (e ∙ same)

  -- A `reclaim` by a program that has come to this point by `n` calls on one domain, and may be in
  -- the middle of loads, returns if every loop may go round `n + 2` times. Every retired value whose
  -- address no load guard with a hazard pointer has, and no hazard pointer of a load under way holds,
  -- has then been dropped and is no longer retired, even if the guard of a failed exchange, which has no
  -- hazard pointer, refers to it. A value that is protected in one of the two ways is as it was, and
  -- still retired if it was.
  pub reclaim-Collects :
      (c' : Client V) × (perform d (suc rounds) (some time) reclaim c ≡ returns c')
      × Collects d c c'
  unfolding perform
  reclaim-Collects =
      let (m, s', run, r) =
        bulk_reclaim-Reclaims d (suc rounds) c.world sound.items sound.hazards sound.domain
          (omega (arith, sound.few_items)) (omega (arith, sound.few_hazards)) in
      (
        record c { world = s' },
        rw run refl,
        record {
          before = sound.items;
          before_retired = sound.domain.items;
          after = r.left;
          after_retired = r.domain.items;
          guarded = λ a p i. ground (arith, guard-contains a p i, r.waiting p, r.values p);
          unguarded = λ p i out unread.
              ground (arith, no_guard-contains p out unread, r.waiting p, r.values p);
        },
      )
