-- ===== src/Client/Reclaiming.antt =====
-- The effects of a retirement and of a reclamation.
use atom_box.Prelude.{ℕ, suc, ◌<◌, ◌≤◌, ◌≡◌, true, false, ◌∷◌, ◌==◌, length, arith}
use atom_box.Machine.{Ptr, null}
use atom_box.LockFreeList.Chain.{Cells}
use atom_box.World.{World, Retire}
use atom_box.Domain.Safety.{mentions}
use atom_box.Domain.Settling.{Settles}
use atom_box.Domain.Retiring.{item}
use atom_box.Client.{Client, less}
use atom_box.Client.Sound.{IsSound, IsOwned, Spared, active, entry-held}

module _ {V : Type 0} (d n : ℕ) (c : Client V) (sound : IsSound d n c) (ys : Cells Retire)
    (s' : World V) (settles : Settles d ys sound.hazards c.world s') where
  -- A value that is not retired, and one that is guarded.
  unmentioned-same : (p : Ptr) → mentions ys p ≡ false → s'.values p ≡ c.world.values p
  unmentioned-same p out = ground (arith, settles.values p)

  guarded-same : Spared c s'
  guarded-same a p i =
      let (e, alive) = sound.loaded a p i in
      let there : (p == null) ≡ false = ground arith in
      let is_held = entry-held sound.hazards a (active p) e there in
      ground (arith, settles.values p, settles.guarded p)

  still-IsOwned :
      (p : Ptr)
      → mentions ys p ≡ false
      → IsOwned c.world.values sound.items p
      → IsOwned s'.values settles.left p
  still-IsOwned p out own = ground (arith, unmentioned-same p out, settles.subset p)

  settled-IsSound :
      (f : Ptr → ℕ)
      → ((b : ℕ)
          → c.boxes b ≡ true
          → (mentions ys (c.world.boxes b).ptr ≡ false) × (f (c.world.boxes b).ptr ≡ 0))
      → ((p : Ptr) → 0 < f p → (mentions ys p ≡ false) × (0 < c.stores p) × (f p ≡ 1))
      → length ys ≤ suc n
      → IsSound d (suc n) (record c { world = s'; stores = f })
  settled-IsSound f boxed stored few = record {
    items = settles.left;
    hazards = sound.hazards;
    domain = settles.domain;
    idle = rw settles.hazards sound.idle;
    near = rw settles.boxes sound.near;
    boxed = rw settles.boxes (λ b i.
        (still-IsOwned (c.world.boxes b).ptr (boxed b i).0 (sound.boxed b i).0, (boxed b i).1));
    apart = rw settles.boxes sound.apart;
    stored =
        λ p i. (still-IsOwned p (stored p i).0 (sound.stored p (stored p i).1).0, (stored p i).2);
    loaded = λ a p i. ground (arith, sound.loaded a p, guarded-same a p);
    accounted = sound.accounted;
    under_way = sound.under_way;
    few_items = omega (arith, settles.shorter);
    few_hazards = omega (arith, sound.few_hazards);
  }

module _ {V : Type 0} (d n : ℕ) (c : Client V) (sound : IsSound d n c) (s' : World V) where
  pub reclaimed-IsSound :
      Settles d sound.items sound.hazards c.world s'
      → IsSound d (suc n) (record c { world = s' }) × Spared c s'
  reclaimed-IsSound settles = (
    settled-IsSound d n c sound sound.items s' settles c.stores
        (λ b i. ground (arith, sound.boxed b)) (λ p i. ground (arith, sound.stored p))
        (omega (arith, sound.few_items)),
    guarded-same d n c sound sound.items s' settles,
  )

  -- The value of a store guard is retired.
  pub retired-IsSound :
      (node p : Ptr)
      → 0 < c.stores p
      → Settles d ((node, item p) ∷ sound.items) sound.hazards c.world s'
      → IsSound d (suc n) (record c { world = s'; stores = less p c.stores }) × Spared c s'
  retired-IsSound node p own settles = (
    settled-IsSound d n c sound ((node, item p) ∷ sound.items) s' settles (less p c.stores)
        (λ b i. ground (arith, sound.boxed b))
        (λ q i. ground (arith, sound.stored p, sound.stored q)) (omega (arith, sound.few_items)),
    guarded-same d n c sound ((node, item p) ∷ sound.items) s' settles,
  )
