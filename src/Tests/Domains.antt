-- ===== src/Tests/Domains.antt =====
-- The domain at small memories.
use atom_box.Prelude.{ℕ, ◌≡◌, refl, true, [], ◌∷◌, some, none, arith}
use atom_box.Machine.{Ptr, Env, returns, is_free, access, read, compare_exchange_weak, ◌within◌}
use atom_box.LockFreeList
use atom_box.LockFreeList.{LockFreeList}
use atom_box.HazardPointerList
use atom_box.HazardPointerList.{HazardPointerList}
use atom_box.ReclaimStrategy
use atom_box.ReclaimStrategy.{eager, manual, timed_capped}
use atom_box.World.{World}
use atom_box.Domain
use atom_box.Domain.{retired, strategy}
use atom_box.Domain.Safety.{Reclaims, bulk_reclaim-Reclaims, bulk_reclaim-leaks}
use atom_box.Domain.Clock.{should_reclaim-clock}
use atom_box.ReclaimStrategy.{TimedCappedSettings, at_settings}
use atom_box.Machine.{box_drop}
use atom_box.Domain.Spared.{here, IsGuarded, Spares}
use atom_box.Domain.Spared.Pushing.{pushing, pushing-Spares}
use atom_box.Domain.Spared.Bulk.{bulk_reclaim-IsGuarded}
use atom_box.Machine.{panics}
use atom_box.World.{dropped}
use atom_box.LockFreeList.Chain.{has}
use atom_box.Domain.Safety.{mentions}
use atom_box.Domain.Ending.{drop-returns, drop-panics}
use atom_box.Machine.{write}
use atom_box.LockFreeList.Chain.{Cells}
use atom_box.Domain.Safety.{IsDomain}
use atom_box.Prelude.{if◌then◌else◌, false}
use atom_box.Tests.{
  three_values, two_retired, small, small_items, small_hazards, small-IsDomain, swapping, memory,
  settings, hazard,
}

bulk_reclaim-Reclaims_example :
    (n : ℕ) × (s' : World ℕ) × (Domain.bulk_reclaim 0 3 [] (small manual) ≡ returns (n, [], s'))
    × Reclaims 0 small_items small_hazards n (small manual) s'
bulk_reclaim-Reclaims_example =
    bulk_reclaim-Reclaims 0 3 (small manual) small_items small_hazards (small-IsDomain manual)
      (omega arith) (omega arith)

bulk_reclaim-leaks_example :
    (n : ℕ) × (s' : World ℕ) × (Domain.bulk_reclaim 0 3 [] (small manual) ≡ returns (n, [], s'))
    × ((p : Ptr) → is_free s'.values p ≡ is_free (small manual).values p)
bulk_reclaim-leaks_example =
    bulk_reclaim-leaks 0 3 (small manual) small_items small_hazards (small-IsDomain manual)
      (omega arith) (omega arith)

-- The value at 3, which the atom box holds, is retired.
should_reclaim-clock_example :
    Domain.should_reclaim 0 (some 5) [] (small (timed_capped settings))
    ≡ ReclaimStrategy.check_sync_time
        (at_settings within strategy 0)
        (some 5)
        []
        (small (timed_capped settings))
should_reclaim-clock_example =
    should_reclaim-clock 0 (some 5) (small (timed_capped settings)) settings 2 999 refl refl refl
      (omega arith) (omega arith)

swapping-Spares : Spares 0 (λ _. Unit {0}) 20 1 100 swapping
swapping-Spares = record {
  guarded = λ s g. record {
    listed = g.listed;
    node = g.node;
    own = g.own;
    holds = g.holds;
    alive = g.alive;
    inv = tt;
    paired = g.paired;
  };
  leads = λ s q g l m. (l, m);
}

small-IsGuarded : IsGuarded 0 (λ _. Unit {0}) 20 1 100 (small manual)
small-IsGuarded = record {
  listed = here refl;
  node = hazard 1 true 0;
  own = refl;
  holds = refl;
  alive = refl;
  inv = tt;
  paired = λ a n own. ground arith;
}

-- Another thread pushes a hazard pointer at the node 30, between two swaps.
abbrev among_others : Env (World ℕ)
among_others = swapping ∷ pushing 0 20 1 100 30 (record { ptr = 0; active = true }) ∷ swapping ∷ []

abbrev reclaimed : World ℕ
reclaimed = memory (Domain.bulk_reclaim 0 3 among_others (small manual))

bulk_reclaim-IsGuarded_example : IsGuarded 0 (λ _. Unit {0}) 20 1 100 reclaimed
unfolding Domain.bulk_reclaim Domain.get_guarded_ptrs Domain.collect_guarded
    Domain.reclaim_unguarded Domain.reclaim_loop Domain.drop_in_place HazardPointerList.load
    LockFreeList.iter LockFreeList.next LockFreeList.push_all LockFreeList.push_all_loop
    compare_exchange_weak access read box_drop
bulk_reclaim-IsGuarded_example =
    bulk_reclaim-IsGuarded 0 (λ _. Unit {0}) 20 1 100 3 1 among_others [] (small manual) reclaimed
      (swapping-Spares, (pushing-Spares 0 20 1 100 30 _, (swapping-Spares, tt))) small-IsGuarded
      refl

-- The same memory with the hazard pointer given back.
abbrev given_up : World ℕ
given_up = record {
  domains = λ _. record {
    retired = two_retired;
    hazard_ptrs = record {
      head = 20;
      count = 1;
      nodes = write (λ _. none) 20 (some (hazard 0 false 0));
    };
    reclaim_strategy = manual;
  };
  values = three_values;
  boxes = λ _. record { ptr = 3; domain = 0 };
}

abbrev idle_hazards : Cells HazardPointerList.Node
idle_hazards = (20, record { ptr = 0; active = false }) ∷ []

given_up-IsDomain : IsDomain 0 small_items idle_hazards given_up
given_up-IsDomain = record {
  items = (11, refl, refl, refl, (0, refl, refl, refl, refl));
  hazards = (0, refl, refl, refl, refl);
  promised = (100, refl, refl, refl, (200, refl, refl, refl, tt));
}

drop-returns_example :
    (s' : World ℕ) × (Domain.drop 0 3 [] given_up ≡ returns (tt, [], s'))
    × ((p : Ptr)
        → s'.values p ≡ (if mentions small_items p then some dropped else given_up.values p))
    × ((a : Ptr) → has a idle_hazards ≡ true → (s'.domains 0).hazard_ptrs.nodes a ≡ none)
drop-returns_example =
    drop-returns 0 3 given_up small_items idle_hazards given_up-IsDomain (omega arith) (omega arith)
      (λ p. ground arith)

drop-panics_example : Domain.drop 0 3 [] (small manual) ≡ panics
drop-panics_example =
    drop-panics 0 3 (small manual) small_items small_hazards (small-IsDomain manual) (omega arith)
      (omega arith) 1 refl
