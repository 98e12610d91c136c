-- ===== src/Client/Values.antt =====
-- The effects on the values and the boxes: an allocation, an exchange of a box's value.
use atom_box.Prelude.{ℕ, ◌≡◌, true, false, some, arith}
use atom_box.Machine.{Ptr, write, is_free}
use atom_box.World.{live}
use atom_box.Domain.Safety.{mentions, Promised-write, Promised-live}
use atom_box.Client.{Client, more}
use atom_box.Client.Sound.{IsSound, Spared}

-- A new value, as if there were a store guard for it.
abbrev pub with_value : {V : Type 0} → Client V → Ptr → V → Client V
with_value c fresh v = record c {
  world = record c.world { values = write c.world.values fresh (some (live v)) };
  stores = more fresh c.stores;
}

module _ {V : Type 0} (d n : ℕ) (c : Client V) (sound : IsSound d n c) where
  module _ (fresh : Ptr) (v : V) (free : is_free c.world.values fresh ≡ true) where
    unused : mentions sound.items fresh ≡ false
    unused = ground (arith, Promised-live sound.items c.world.values fresh sound.domain.promised)

    pub with_value-IsSound : IsSound d n (with_value c fresh v)
    with_value-IsSound = record {
      items = sound.items;
      hazards = sound.hazards;
      domain = record {
        items = sound.domain.items;
        hazards = sound.domain.hazards;
        promised = Promised-write c.world.values fresh _ sound.items unused sound.domain.promised;
      };
      idle = sound.idle;
      near = sound.near;
      boxed = λ b i. ground (arith, sound.boxed b);
      apart = sound.apart;
      stored = λ p i. ground (arith, sound.stored p, sound.stored fresh, unused);
      loaded = λ a p i. ground (arith, sound.loaded a p);
      accounted = sound.accounted;
      under_way = sound.under_way;
      few_items = sound.few_items;
      few_hazards = sound.few_hazards;
    }

    pub with_value-Spared : Spared c (with_value c fresh v).world
    with_value-Spared a p i = ground (arith, sound.loaded a p)
