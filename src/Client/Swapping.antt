-- ===== src/Client/Swapping.antt =====
-- Steps that several calls of a client share: a retirement, and a swap with a new value.
use atom_box.Prelude.{ℕ, suc, ◌<◌, ◌≡◌, refl, true, some, [], arith, eq→==}
use atom_box.Prelude.Int.{word}
use atom_box.Machine.{Ptr, Out, returns, is_free}
use atom_box.LockFreeList.Chain.{node}
use atom_box.World.{World}
use atom_box.Domain.{retire}
use atom_box.Domain.Settling.{retire-Settles}
use atom_box.AtomBox
use atom_box.AtomBox.{StoreGuard, LoadGuard}
use atom_box.AtomBox.Exchange.{holding, allocated, swap_lem, swap_from_guard_lem}
use atom_box.Client.{Client, more, less, store_guard}
use atom_box.Client.Sound.{IsSound, Spared, is_live-live}
use atom_box.Client.Values.{with_value, with_value-IsSound}
use atom_box.Client.Ownership.{IsSound-stores, exchanged, exchanged-IsSound}
use atom_box.Client.Reclaiming.{retired-IsSound}

-- The call returns, with a sound client.
abbrev pub Succeeds : {V : Type 0} → ℕ → ℕ → Client V → Out (Client V) → Type 0
Succeeds d n c o = (c' : Client _) × (o ≡ returns c') × IsSound d n c' × Spared c c'.world

module _ {V : Type 0} (d rounds time : ℕ) (s : World V) (b : ℕ) where
  -- `store` and `store_from_guard` put the value in the box and then retire the one that was there.
  pub store-retire :
      (fresh a : Ptr) (v : V)
      → is_free s.values fresh ≡ true
      → AtomBox.store b (suc rounds) (some time) fresh a v [] s
        ≡ retire
            (s.boxes b).domain
            (suc rounds)
            (some time)
            a
            (s.boxes b).ptr
            []
            (holding b (allocated b s fresh v) fresh)
  unfolding AtomBox.store AtomBox.drop_store_guard
  store-retire fresh a v free = rw (swap_lem b s fresh v free) refl

  pub store_from_guard-retire :
      (a p : Ptr)
      → (s.boxes b).domain ≡ d
      → AtomBox.store_from_guard b (suc rounds) (some time) a (store_guard d p) [] s
        ≡ retire d (suc rounds) (some time) a (s.boxes b).ptr [] (holding b s p)
  unfolding AtomBox.store_from_guard AtomBox.drop_store_guard
  store_from_guard-retire a p near =
      rw (swap_from_guard_lem b s (store_guard d p)) (rw near (rw (eq→== d d refl) refl))

-- A new value is put into a box in exchange for the one that is there.
abbrev pub swapped : {V : Type 0} → Client V → ℕ → Ptr → V → Client V
swapped c b fresh v = record c {
  world = holding b (allocated b c.world fresh v) fresh;
  stores = more (c.world.boxes b).ptr c.stores;
}

pub swapped-IsSound :
    {V : Type 0} (d n : ℕ) (c : Client V) (sound : IsSound d n c) (b : ℕ) (fresh : Ptr) (v : V)
    → c.boxes b ≡ true
    → is_free c.world.values fresh ≡ true
    → IsSound d n (swapped c b fresh v)
swapped-IsSound d n c sound b fresh v there free =
    IsSound-stores d n (exchanged (with_value c fresh v) b fresh)
      (exchanged-IsSound d n (with_value c fresh v) (with_value-IsSound d n c sound fresh v free)
        fresh (ground arith) b there)
      (more (c.world.boxes b).ptr c.stores) (λ p. ground (arith, sound.stored fresh))

module _ {V : Type 0} (d n rounds time : ℕ) (enough : n < rounds) (small : time < word) where
  module _ (c : Client V) (sound : IsSound d n c) where
    -- A value that the client owns can be retired.
    pub retire-returns :
        (node p : Ptr)
        → 0 < c.stores p
        → is_free (c.world.domains d).retired.nodes node ≡ true
        → (s' : World V) × (retire d (suc rounds) (some time) node p [] c.world
            ≡ returns (tt, [], s'))
          × IsSound d (suc n) (record c { world = s'; stores = less p c.stores })
          × Spared c s'
    retire-returns node p own free =
        let ((alive, once), _) = sound.stored p own in
        let (v, there) = is_live-live c.world.values p alive in
        let (s', run, settles) =
          retire-Settles d c.world node p time rounds sound.items sound.hazards v small free
            sound.domain there once (omega (arith, sound.few_items))
            (omega (arith, sound.few_hazards)) in
        let (sound', spared) = retired-IsSound d n c sound s' node p own settles in
        (s', run, sound', spared)
