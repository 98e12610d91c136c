-- ===== src/Client/Owners.antt =====
-- Who owns the values of a program.
use atom_box.Prelude.{ℕ, ◌<◌, ◌≡◌, false, true}
use atom_box.Machine.{Ptr, null}
use atom_box.LockFreeList.Chain.{Cells, Seg}
use atom_box.World.{Retire}
use atom_box.Domain.Safety.{mentions, Promised}
use atom_box.Client.{Client, Reach}
use atom_box.Client.Safety.{Reach-IsSound}

-- The retired items of the domain, each once and live, and one owner for every other value.
pub record OneOwner {V : Type 0} (d : ℕ) (c : Client V) : Type 0 where
  pub items : Cells Retire
  pub chain : Seg (c.world.domains d).retired.nodes null (c.world.domains d).retired.head items
  pub promised : Promised c.world.values items
  pub boxed :
      (b : ℕ)
      → c.boxes b ≡ true
      → (mentions items (c.world.boxes b).ptr ≡ false) × (c.stores (c.world.boxes b).ptr ≡ 0)
  pub apart :
      (b b' : ℕ)
      → c.boxes b ≡ true
      → c.boxes b' ≡ true
      → (c.world.boxes b).ptr ≡ (c.world.boxes b').ptr
      → b ≡ b'
  pub stored : (p : Ptr) → 0 < c.stores p → (mentions items p ≡ false) × (c.stores p ≡ 1)

-- However a program has come to this point, by calls on one domain that run one after another but for the
-- steps of loads: no two
-- of its boxes hold the same address, none holds that of a store guard, no two store guards have the
-- same address, and no address of a box or store guard is on the domain's retired list, on which no
-- address stands twice and every value is live.
pub Reach-OneOwner : {V : Type 0} (d n : ℕ) (c : Client V) → Reach d n c → OneOwner d c
Reach-OneOwner d n c h =
    let sound = Reach-IsSound d n c h in
    record {
      items = sound.items;
      chain = sound.domain.items;
      promised = sound.domain.promised;
      boxed = λ b i. ((sound.boxed b i).0.1, (sound.boxed b i).1);
      apart = sound.apart;
      stored = λ p i. ((sound.stored p i).0.1, (sound.stored p i).1);
    }
