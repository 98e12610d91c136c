-- ===== src/Client/Guards.antt =====
-- A load guard is dropped, with or without a hazard pointer.
use atom_box.Prelude.{ℕ, suc, ◌≡◌, refl, Option, none, some, [], ap}
use atom_box.Machine.{Ptr, returns}
use atom_box.LockFreeList.Chain.{node}
use atom_box.World.{World}
use atom_box.Domain.Hazard.{release_hazard_ptr-without}
use atom_box.AtomBox
use atom_box.AtomBox.Exchange.{answer}
use atom_box.Client.{
  Client, Ready, perform, load_guard, HasLoadGuard, loads_less, bare_less, drop_load_guard,
}
use atom_box.Client.Sound.{IsSound, active}
use atom_box.Client.Ownership.{IsSound-suc}
use atom_box.Client.Hazards.{guard_node, released, released-IsSound}
use atom_box.Client.Swapping.{Succeeds}

-- Guards without a hazard pointer protect nothing: the client is sound whichever of them it holds.
IsSound-bare :
    {V : Type 0} (d n : ℕ) (c : Client V) (f : Ptr → ℕ)
    → IsSound d n c
    → IsSound d n (record c { bare_loads = f })
IsSound-bare d n c f sound = record {
  items = sound.items;
  hazards = sound.hazards;
  domain = sound.domain;
  idle = sound.idle;
  near = sound.near;
  boxed = sound.boxed;
  apart = sound.apart;
  stored = sound.stored;
  loaded = sound.loaded;
  accounted = sound.accounted;
  under_way = sound.under_way;
  few_items = sound.few_items;
  few_hazards = sound.few_hazards;
}

module _ {V : Type 0} (d n : ℕ) (c : Client V) where
  -- The guard's drop returns, and changes no value.
  pub record LetGo (haz : Option Ptr) (p : Ptr) : Type 0 where
    pub world : World V
    pub run : AtomBox.drop_load_guard (load_guard d haz p) [] c.world ≡ returns (tt, [], world)
    pub values : world.values ≡ c.world.values
    pub sound :
        (f : Ptr → ℕ)
        → IsSound d
            (suc n)
            (record c { world = world; loads = loads_less haz c.loads; bare_loads = f })

  pub answer-LetGo :
      {R : Type 0} (haz : Option Ptr) (p : Ptr) (r : R) (g : LetGo haz p)
      → answer (load_guard d haz p) r c.world ≡ returns (r, [], g.world)
  answer-LetGo haz p r g = rw g.run refl

  module _ (sound : IsSound d n c) where
    pub let_go :
        (haz : Option Ptr) (p : Ptr) → HasLoadGuard haz p c.loads c.bare_loads → LetGo haz p
    unfolding AtomBox.drop_load_guard
    let_go none p held = record {
      world = c.world;
      run = refl;
      values = refl;
      sound = λ f. IsSound-bare d (suc n) c f (IsSound-suc d n c sound);
    }
    let_go (some a) p held =
        let (q, own) = guard_node d n c sound a p held in
        record {
          world = (released d n c sound a p held).world;
          run = rw (release_hazard_ptr-without d a c.world (node (active p) q) own) refl;
          values = refl;
          sound = λ f.
              IsSound-bare d (suc n) (released d n c sound a p held) f
                (released-IsSound d n c sound a p held);
        }

    pub perform-drop_load_guard :
        (rounds time : ℕ) (haz : Option Ptr) (p : Ptr)
        → Ready d (drop_load_guard haz p) c
        → Succeeds d (suc n) c (perform d (suc rounds) (some time) (drop_load_guard haz p) c)
    unfolding perform
    perform-drop_load_guard rounds time haz p held =
        let g : LetGo haz p = let_go haz p held in
        (
          record c {
            world = g.world;
            loads = loads_less haz c.loads;
            bare_loads = bare_less haz p c.bare_loads;
          },
          rw g.run refl,
          g.sound _,
          λ e r i. ap (λ vs. vs r) g.values,
        )
