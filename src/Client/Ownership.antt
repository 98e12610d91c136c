-- ===== src/Client/Ownership.antt =====
-- A value that changes hands: from a store guard to a box, from a box to a store guard, and to nobody.
use atom_box.Prelude.{
  ℕ, suc, ◌<◌, ◌≡◌, ◌≢◌, true, false, some, ◌==◌, arith, subst, fun_ext, Bool-cases, inl, inr,
  ==→eq,
}
use atom_box.Machine.{Ptr}
use atom_box.World.{update}
use atom_box.AtomBox.Exchange.{holding}
use atom_box.Client.{Client, Reader, box_read, more, less}
use atom_box.Client.Sound.{IsSound}

module _ {V : Type 0} (c : Client V) (b : ℕ) where
  -- The value at `p` is put into the box in exchange for the one that is there.
  abbrev pub exchanged : Ptr → Client V
  exchanged p = record c {
    world = holding b c.world p;
    stores = more (c.world.boxes b).ptr (less p c.stores);
  }

  -- The value at `p` is put into a new box.
  abbrev pub built : ℕ → Ptr → Client V
  built d p = record c {
    world = record c.world { boxes = update c.world.boxes b (record { ptr = p; domain = d }) };
    boxes = update c.boxes b true;
    stores = less p c.stores;
  }

  -- The value is taken out of the box, which ends.
  abbrev pub unboxed : Client V
  unboxed = record c {
    boxes = update c.boxes b false;
    stores = more (c.world.boxes b).ptr c.stores;
  }

module _ {V : Type 0} (d n : ℕ) (c : Client V) (sound : IsSound d n c) where
  -- Only the counts matter.
  pub IsSound-stores :
      (f : Ptr → ℕ) → ((p : Ptr) → c.stores p ≡ f p) → IsSound d n (record c { stores = f })
  IsSound-stores f same =
      subst (λ (g : Ptr → ℕ). IsSound d n (record c { stores = g })) (fun_ext same) sound

  pub IsSound-suc : IsSound d (suc n) c
  IsSound-suc = record {
    items = sound.items;
    hazards = sound.hazards;
    domain = sound.domain;
    idle = sound.idle;
    near = sound.near;
    boxed = sound.boxed;
    apart = sound.apart;
    stored = sound.stored;
    loaded = sound.loaded;
    accounted = sound.accounted;
    under_way = sound.under_way;
    few_items = omega (arith, sound.few_items);
    few_hazards = omega (arith, sound.few_hazards);
  }

  module _ (p : Ptr) (own : 0 < c.stores p) where
    -- The value is forgotten.
    pub less-IsSound : IsSound d n (record c { stores = less p c.stores })
    less-IsSound = record {
      items = sound.items;
      hazards = sound.hazards;
      domain = sound.domain;
      idle = sound.idle;
      near = sound.near;
      boxed = λ b i. ground (arith, sound.boxed b);
      apart = sound.apart;
      stored = λ q i. ground (arith, sound.stored q, sound.stored p);
      loaded = sound.loaded;
      accounted = sound.accounted;
      under_way = sound.under_way;
      few_items = sound.few_items;
      few_hazards = sound.few_hazards;
    }

    module _ (b : ℕ) where
      pub exchanged-IsSound : c.boxes b ≡ true → IsSound d n (exchanged c b p)
      exchanged-IsSound there = record {
        items = sound.items;
        hazards = sound.hazards;
        domain = record {
          items = sound.domain.items;
          hazards = sound.domain.hazards;
          promised = sound.domain.promised;
        };
        idle = sound.idle;
        near = λ e i. ground (arith, sound.near e);
        boxed =
            λ e i. ground (arith, sound.boxed e, sound.boxed b, sound.stored p, sound.apart b e);
        apart = λ e e' i i' same.
            ground (arith, sound.apart e e', sound.boxed e, sound.boxed e', sound.stored p);
        stored = λ q i. ground (arith, sound.stored q, sound.boxed b, sound.stored p);
        loaded = sound.loaded;
        accounted = sound.accounted;
        under_way = sound.under_way;
        few_items = sound.few_items;
        few_hazards = sound.few_hazards;
      }

      pub built-IsSound : c.boxes b ≡ false → IsSound d n (built c b d p)
      built-IsSound new = record {
        items = sound.items;
        hazards = sound.hazards;
        domain = record {
          items = sound.domain.items;
          hazards = sound.domain.hazards;
          promised = sound.domain.promised;
        };
        idle = sound.idle;
        near = λ e i. ground (arith, sound.near e);
        boxed = λ e i. ground (arith, sound.boxed e, sound.stored p);
        apart = λ e e' i i' same.
            ground (arith, sound.apart e e', sound.boxed e, sound.boxed e', sound.stored p);
        stored = λ q i. ground (arith, sound.stored q, sound.stored p);
        loaded = sound.loaded;
        accounted = sound.accounted;
        under_way = λ a r i. ground (arith, sound.under_way a r);
        few_items = sound.few_items;
        few_hazards = sound.few_hazards;
      }

  pub unboxed-IsSound :
      (b : ℕ)
      → c.boxes b ≡ true
      → ((a : Ptr) (r : Reader) → c.reading a ≡ some r → box_read r ≢ b)
      → IsSound d n (unboxed c b)
  unboxed-IsSound b there idle_box = record {
    items = sound.items;
    hazards = sound.hazards;
    domain = sound.domain;
    idle = sound.idle;
    near = λ e i. ground (arith, sound.near e);
    boxed = λ e i. ground (arith, sound.boxed e, sound.apart b e);
    apart = λ e e' i i' same. ground (arith, sound.apart e e');
    stored = λ q i. ground (arith, sound.stored q, sound.boxed b);
    loaded = sound.loaded;
    accounted = sound.accounted;
    under_way = λ a r i.
        let (e, known, none_held) = sound.under_way a r i in
        (
          e,
          elim (Bool-cases (box_read r == b)) [
            | inl here ↦ absurd (idle_box a r i (==→eq (box_read r) b here))
            | inr other ↦ rw other known
          ],
          none_held,
        );
    few_items = sound.few_items;
    few_hazards = sound.few_hazards;
  }
