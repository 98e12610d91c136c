-- ===== src/Tests.antt =====
-- Small memories for runs of the definitions and for the theorems at concrete inputs.
pub mod Boxes
pub mod Domains
pub mod Lists
pub mod Clocks
pub mod Heads
pub mod Holders
pub mod Clients
pub mod Interrupted
pub mod Retirements
use atom_box.Prelude.{ℕ, refl, Bool, true, false, [], ◌∷◌, some, none}
use atom_box.Prelude.Int.{pos}
use atom_box.Machine.{Ptr, Heap, Out, Env, Tick, write, returns}
use atom_box.LockFreeList
use atom_box.LockFreeList.{LockFreeList}
use atom_box.LockFreeList.Chain.{Cells}
use atom_box.HazardPointerList
use atom_box.HazardPointerList.{HazardPointerList}
use atom_box.ReclaimStrategy
use atom_box.ReclaimStrategy.{TimedCappedSettings, manual}
use atom_box.World.{World, Boxed, live, Retire}
use atom_box.Domain.Safety.{IsDomain}
use atom_box.AtomBox.Exchange.{holding}

abbrev pub hazard : Ptr → Bool → Ptr → LockFreeList.Node HazardPointerList.Node
hazard p active q = record { value = record { ptr = p; active = active }; next = q }

abbrev pub retired_node : Ptr → Ptr → LockFreeList.Node Retire
retired_node p q = record { value = record { ptr = p; retirable = p }; next = q }

-- Two retired items at the nodes 10 and 11, for the values at 1 and 2; one hazard pointer, at the node
-- 20, holds 1; the atom box 0 holds 3.
abbrev pub two_retired : LockFreeList Retire
two_retired = record {
  head = 10;
  count = 2;
  nodes = write (write (λ _. none) 10 (some (retired_node 1 11))) 11 (some (retired_node 2 0));
}

abbrev pub one_hazard : HazardPointerList
one_hazard = record { head = 20; count = 1; nodes = write (λ _. none) 20 (some (hazard 1 true 0)) }

abbrev pub three_values : Heap (Boxed ℕ)
three_values =
    write (write (write (λ _. none) 1 (some (live 100))) 2 (some (live 200))) 3 (some (live 300))

abbrev pub small : ReclaimStrategy.ReclaimStrategy → World ℕ
small strategy = record {
  domains =
      λ _. record { retired = two_retired; hazard_ptrs = one_hazard; reclaim_strategy = strategy };
  values = three_values;
  boxes = λ _. record { ptr = 3; domain = 0 };
}

abbrev pub small_items : Cells Retire
small_items = (10, record { ptr = 1; retirable = 1 }) ∷ (11, record { ptr = 2; retirable = 2 }) ∷ []

abbrev pub small_hazards : Cells HazardPointerList.Node
small_hazards = (20, record { ptr = 1; active = true }) ∷ []

pub small-IsDomain :
    (strategy : ReclaimStrategy.ReclaimStrategy)
    → IsDomain 0 small_items small_hazards (small strategy)
small-IsDomain strategy = record {
  items = (11, refl, refl, refl, (0, refl, refl, refl, refl));
  hazards = (0, refl, refl, refl, refl);
  promised = (100, refl, refl, refl, (200, refl, refl, refl, tt));
}

-- Another thread puts 2 in the box.
abbrev pub swapping : Tick (World ℕ)
swapping = record { others = λ s. holding 0 s 2; weak_fails = false }

-- The memory at the end of a run.
abbrev pub memory : {A : Type 0} → Out (A × Env (World ℕ) × World ℕ) → World ℕ
memory (returns (_, _, s)) = s
memory _ = small manual

-- The clock is at 5 and then at 9, with a period of 10.
abbrev pub settings : TimedCappedSettings
settings = record {
  last_sync_time = 3;
  sync_timeout = 10;
  hazard_pointer_multiplier = pos 2;
  retired_threshold = pos 1000;
}
